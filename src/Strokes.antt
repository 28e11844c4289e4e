-- ===== src/Strokes.antt =====
-- Numbers as texts of strokes, with a reader: concrete functions for the parameters of the tests.
use Prim.Native.String.{[] as end_of_text, ◌∷◌ as char_then}
use estate_os_service.Base.{ℕ, zero, suc, String, ◌≡◌, refl, ap}

abbrev pub strokes : ℕ → String
strokes zero = ""
strokes (suc n) = char_then "i" (strokes n)

abbrev pub count : String → ℕ
count end_of_text = zero
count (char_then c s) = suc (count s)

pub count-strokes : (n : ℕ) → count (strokes n) ≡ n
count-strokes zero = refl
count-strokes (suc n) = ap suc (count-strokes n)
