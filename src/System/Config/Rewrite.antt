-- ===== src/System/Config/Rewrite.antt =====
-- GetGrubConfig and then WriteGrubConfig of core/system/grub.go, as grub-default-config calls them.
use mathlib.Core.List.{Permᴰ}
use albius.Base.{◌≡◌, none, Text}
use albius.Machine.{Platform, World, contents, present, ok}
use albius.System.Config.{GrubConfig, lookup, grub_file, get_grub_config, write_grub_config}
use albius.System.Config.Parsed.{get_grub_config-IsConfig}
use albius.System.Config.RoundTrip.{get_grub_config-write_grub_config}

module _ ⦃P : Platform⦄ where
  -- A configuration that GetGrubConfig read, whatever the file held, and that WriteGrubConfig wrote
  -- back without an error, is read again with every name and value. This is where Go's range over
  -- the map meets every entry once, and a file that was written is there with what was written.
  pub write_grub_config-get_grub_config :
      (root : Text) (config : GrubConfig) (w w1 w2 : World)
      → get_grub_config root w ≡ (ok config, w1)
      → Permᴰ config (P.range_order config w1.state).0
      → ((bytes : Text) (s s' : P.State)
          → P.write_file (grub_file root) bytes s ≡ (none, s')
          → ((P.stat (grub_file root) s').0 ≡ present)
            × ((P.read_file (grub_file root) (P.stat (grub_file root) s').1).0 ≡ contents bytes))
      → write_grub_config root config w1 ≡ (ok tt, w2)
      → (found : GrubConfig) × (w3 : World) × (get_grub_config root w2 ≡ (ok found, w3))
        × ((key : Text) → lookup key found ≡ lookup key config)
  write_grub_config-get_grub_config root config w w1 w2 read order keeps written =
      let (unique, entries) = get_grub_config-IsConfig root w w1 config read in
      get_grub_config-write_grub_config root config w1 w2 unique entries order keeps written
