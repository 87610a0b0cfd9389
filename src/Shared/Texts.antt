-- ===== src/Shared/Texts.antt =====
-- Comparison of texts.
use mathlib.Core.Bool.{Bool}
use Prim.Native.String.{String}
use text.Mathlib.Text.{◌==◌}

abbrev pub same_text : String → String → Bool
same_text s t = s == t
