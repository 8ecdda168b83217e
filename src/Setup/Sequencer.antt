-- ===== src/Setup/Sequencer.antt =====
-- Where `clk_osm_setup_sequencer` leaves the words of its two images.
use xiaomi_pad4_ubuntu_touch.Base.{
  ℕ, zero, suc, ◌+◌, ◌*◌, ◌≤◌, ◌<◌, ◌≡◌, refl, ◌∙◌, List, [], ◌∷◌, some, length, get_elem?, arith,
  u32, ==_refl, ==_of_ne, ◌≢◌,
}
use xiaomi_pad4_ubuntu_touch.Osm.{Cluster, Access, write_reg, World, clock, ok, last_written, ◌>>◌}
use xiaomi_pad4_ubuntu_touch.Osm.Regs.{seq_mem_addr, seq_cfg_br_addr}
use xiaomi_pad4_ubuntu_touch.Setup.Image.{seq_instr, seq_br_instr}
use xiaomi_pad4_ubuntu_touch.Setup.{write_words, clk_osm_setup_sequencer}

-- The writes of the words from word `i` on.
abbrev words_log : ℕ → ℕ → ℕ → List ℕ → List Access → List Access
words_log base start i [] bus = bus
words_log base start i (v ∷ words) bus =
    words_log base start (i + 1) words (write_reg (base + (start + i * 4)) (u32 v) ∷ bus)

write_words-words_log :
    (k : Cluster) (start i : ℕ) (words : List ℕ) (w : World)
    → write_words k start i words w
      ≡ (ok tt, record w { bus = words_log (clock k w).vbases.osm_base start i words w.bus })
unfolding write_words
write_words-words_log k start i [] w = refl
write_words-words_log k start i (v ∷ words) w = write_words-words_log k start (i + 1) words _

last_written-other :
    (a b v : ℕ) (bus : List Access)
    → a ≢ b
    → last_written a (write_reg b v ∷ bus) ≡ last_written a bus
last_written-other a b v bus ne = rw (==_of_ne a b ne) refl

words_log_below :
    (base start i a : ℕ) (words : List ℕ) (bus : List Access)
    → a < base + (start + i * 4)
    → last_written a (words_log base start i words bus) ≡ last_written a bus
words_log_below base start i a [] bus h = refl
words_log_below base start i a (v ∷ words) bus h =
    words_log_below base start (i + 1) a words _ (omega arith)
    ∙ last_written-other a _ _ bus (λ e. omega arith)

words_log_above :
    (base start i a : ℕ) (words : List ℕ) (bus : List Access)
    → base + (start + (i + length words) * 4) ≤ a
    → last_written a (words_log base start i words bus) ≡ last_written a bus
words_log_above base start i a [] bus h = refl
words_log_above base start i a (v ∷ words) bus h =
    words_log_above base start (i + 1) a words _ (omega arith)
    ∙ last_written-other a _ _ bus (λ e. omega arith)

words_log-get_elem? :
    (base start i j v : ℕ) (words : List ℕ) (bus : List Access)
    → get_elem? words j ≡ some v
    → last_written (base + (start + (i + j) * 4)) (words_log base start i words bus) ≡ some (u32 v)
words_log-get_elem? base start i j v [] bus at = cc at
words_log-get_elem? base start i zero v (x ∷ words) bus at =
    let same : x ≡ v = cc at in
    let here : i + 0 ≡ i = omega arith in
    rw here (
      words_log_below base start (i + 1) _ words _ (omega arith)
      ∙ rw (same, ==_refl (base + (start + i * 4))) refl)
words_log-get_elem? base start i (suc j) v (x ∷ words) bus at =
    let next : i + suc j ≡ i + 1 + j = omega arith in
    rw next (words_log-get_elem? base start (i + 1) j v words _ at)

image-get_elem? :
    (base start j v : ℕ) (words : List ℕ) (bus : List Access)
    → get_elem? words j ≡ some v
    → last_written (base + (start + j * 4)) (words_log base start 0 words bus) ≡ some (u32 v)
image-get_elem? base start j v words bus at =
    let same : 0 + j ≡ j = omega arith in
    rw same at (words_log-get_elem? base start 0 j v words bus at)

-- Two images, the second of which ends before the first begins.
two_images :
    (k : Cluster) (w : World) (start start' i j u v : ℕ) (words words' : List ℕ)
    → start' + length words' * 4 ≤ start
    → get_elem? words i ≡ some u
    → get_elem? words' j ≡ some v
    → let (r, w') = (write_words k start 0 words >> write_words k start' 0 words') w in
      let base = (clock k w).vbases.osm_base in
      (r ≡ ok tt)
      × (last_written (base + (start + i * 4)) w'.bus ≡ some (u32 u))
      × (last_written (base + (start' + j * 4)) w'.bus ≡ some (u32 v))
two_images k w start start' i j u v words words' apart first second =
    let base = (clock k w).vbases.osm_base in
    let after = words_log base start 0 words w.bus in
    rw
      (
        write_words-words_log k start 0 words w,
        write_words-words_log k start' 0 words' (record w { bus = after }),
      )
      (
        refl,
        words_log_above base start' 0 _ words' after (omega arith)
            ∙ image-get_elem? base start i u words w.bus first,
        image-get_elem? base start' j v words' after second,
      )

-- Once the sequencer is set up, word `i` of its instructions and word `j` of its branch
-- instructions are the last values written to their places, four bytes apart: the second image
-- does not overwrite the first.
pub setup_sequencer-last_written :
    (k : Cluster) (w : World) (i j u v : ℕ)
    → get_elem? seq_instr i ≡ some u
    → get_elem? seq_br_instr j ≡ some v
    → let (r, w') = clk_osm_setup_sequencer k w in
      let base = (clock k w).vbases.osm_base in
      (r ≡ ok tt)
      × (last_written (base + (seq_mem_addr + i * 4)) w'.bus ≡ some (u32 u))
      × (last_written (base + (seq_cfg_br_addr + j * 4)) w'.bus ≡ some (u32 v))
unfolding clk_osm_setup_sequencer
setup_sequencer-last_written k w i j u v first second =
    two_images k w seq_mem_addr seq_cfg_br_addr i j u v seq_instr seq_br_instr (omega arith) first
      second
