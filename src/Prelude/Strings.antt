-- ===== src/Prelude/Strings.antt =====
-- Go strings as the lists of their bytes. A text literal is the list of its code points.
use Prim.Native.Nat.{ℕ, suc, ◌+◌, ◌-◌}
use Prim.Native.Char.{code}
use Prim.Native.String.{String}
use mathlib.Core.Path.{◌≡◌, refl}
use mathlib.Core.Logic.{◌↔◌}
use mathlib.Core.Bool.{Bool, true, false, ◌&&◌, ◌||◌}
use mathlib.Core.Option.{Option, none, some}
use mathlib.Core.List.{List, [], ◌∷◌}
use native.Mathlib.Omega.{arith}
use state_engine.Prelude.Tests.{leb, ◌==◌, if◌then◌else◌}
use state_engine.Prelude.Lists.{length, take, drop}

abbrev pub Bytes : Type 0
Bytes = List ℕ

abbrev pub codes : String → Bytes
codes String.[] = []
codes (String.◌∷◌ c s) = code c ∷ codes s

-- `s == t` on strings.
unfoldable pub bytes_eq : Bytes → Bytes → Bool
bytes_eq [] [] = true
bytes_eq [] (d ∷ t) = false
bytes_eq (c ∷ s) [] = false
bytes_eq (c ∷ s) (d ∷ t) = (c == d) && bytes_eq s t

pub bytes_eq_refl : (s : Bytes) → bytes_eq s s ≡ true
unfolding bytes_eq
bytes_eq_refl [] = refl
bytes_eq_refl (c ∷ s) = ground (arith, bytes_eq_refl s)

pub bytes_eq_sound : (s t : Bytes) → bytes_eq s t ≡ true → s ≡ t
unfolding bytes_eq
bytes_eq_sound [] [] h = refl
bytes_eq_sound [] (d ∷ t) h = cc
bytes_eq_sound (c ∷ s) [] h = cc
bytes_eq_sound (c ∷ s) (d ∷ t) h = ground (arith, bytes_eq_sound s t)

pub bytes_eq_iff : (s t : Bytes) → (bytes_eq s t ≡ true) ↔ (s ≡ t)
bytes_eq_iff s t = (bytes_eq_sound s t, λ e. rw e (bytes_eq_refl t))

-- `strings.HasPrefix(s, p)`
unfoldable pub has_prefix : Bytes → Bytes → Bool
has_prefix s [] = true
has_prefix [] (d ∷ p) = false
has_prefix (c ∷ s) (d ∷ p) = (c == d) && has_prefix s p

-- `strings.HasSuffix(s, p)`: `len(s) >= len(p) && s[len(s)-len(p):] == p`
unfoldable pub has_suffix : Bytes → Bytes → Bool
unfolding bytes_eq
has_suffix s p = leb (length p) (length s) && bytes_eq (drop (length s - length p) s) p

-- `s[i:j]`
abbrev pub slice : Bytes → ℕ → ℕ → Bytes
slice s i j = take (j - i) (drop i s)

-- `strings.Contains(s, "c")` for a text of one byte
unfoldable pub contains_byte : ℕ → Bytes → Bool
contains_byte b [] = false
contains_byte b (c ∷ s) = (c == b) || contains_byte b s

-- `strings.LastIndex(s, "c")` for a text of one byte; `none` is the result -1. `i` is the position
-- of the first byte of the argument, and `found` the last occurrence before it.
unfoldable pub last_index_from : ℕ → ℕ → Option ℕ → Bytes → Option ℕ
last_index_from b i found [] = found
last_index_from b i found (c ∷ s) = last_index_from b (suc i) (if c == b then some i else found) s

unfoldable pub last_index : ℕ → Bytes → Option ℕ
unfolding last_index_from
last_index b s = last_index_from b 0 none s

-- `strings.LastIndex(s, "c") + 1`
abbrev pub after_index : Option ℕ → ℕ
after_index none = 0
after_index (some i) = i + 1
