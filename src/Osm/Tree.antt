-- ===== src/Osm/Tree.antt =====
-- Reads of the device tree: `of_property_read_u32` and its kin, over the functions of `Env`.
use Prim.Native.String.{String}
use xiaomi_pad4_ubuntu_touch.Base.{ℕ, Bool, List, Option, none, some, get_or}
use xiaomi_pad4_ubuntu_touch.Osm.Io.{M, ◌>>=◌, ◌>>◌, pure, fail}

abbrev pub of_error : Option ℕ → M (Unit {0})
of_error none = pure tt
of_error (some e) = fail e

-- of_property_read_u32_array(of, name, array, count)
abbrev pub of_property_read_u32_array : String → ℕ → M (List ℕ)
of_property_read_u32_array name count w =
    (do of_error (w.env.of_read_array_error name count); pure (w.env.of_read_array name count)) w

-- of_property_read_u32(of, name, &value)
abbrev pub of_property_read_u32 : String → M ℕ
of_property_read_u32 name = do cells ← of_property_read_u32_array name 1; pure (get_or cells 0 0)

-- of_property_read_bool(of, name)
abbrev pub of_property_read_bool : String → M Bool
of_property_read_bool name w = pure (w.env.of_read_bool name) w
