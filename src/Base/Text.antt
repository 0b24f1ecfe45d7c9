-- ===== src/Base/Text.antt =====
-- Texts have decidable equality.
use Prim.Native.String.{String}
use mathlib.Core.Path.{◌≡◌, refl}
use mathlib.Core.Bool.{Bool, true, false}
use native.Mathlib.Omega.{arith}
use text.Mathlib.Text.{◌==◌}
use text.Mathlib.TextEquality.{eq_iff}
use linux_debug_mcp.Base.Tests.{holds}

dec_of_test : (s t : String) (b : Bool) → (s == t) ≡ b → Dec (s ≡ t)
dec_of_test s t true h = yes ((eq_iff s t).0 h)
dec_of_test s t false h = no (λ e. ground (arith, (eq_iff s t).1 e))

unfoldable pub String-discrete : Discrete String
unfolding dec_of_test
String-discrete s t = dec_of_test s t (s == t) refl

-- Two literals differ by evaluation: `text_differs "a" "b" refl`.
pub text_differs : (s t : String) → holds (String-discrete s t) ≡ false → ¬ (s ≡ t)
text_differs s t h e = ground arith
