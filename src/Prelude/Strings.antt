-- ===== src/Prelude/Strings.antt =====
-- Go strings xs lists of bytes, and the functions of `strings` and `strconv` that the program uses.
use Prim.Native.Nat.{ℕ, zero, suc, ◌+◌, ◌-◌, ◌/◌, ◌%◌}
use Prim.Native.Char.{code}
use Prim.Native.String.{String}
use mathlib.Core.Path.{◌≡◌, refl}
use mathlib.Core.Logic.{◌↔◌}
use mathlib.Core.Bool.{Bool, true, false, ◌&&◌, ◌||◌}
use mathlib.Core.List.{List, [], ◌∷◌, ◌++◌, map}
use mathlib.Core.Option.{Option, none, some}
use native.Mathlib.Omega.{arith}
use mocking_box.Prelude.Tests.{ltb, leb, ◌==◌, if◌then◌else◌}
use mocking_box.Prelude.Lists.{length, take, drop}

-- A Go `string` or `[]byte`.
abbrev pub GoString : Type 0
GoString = List ℕ

-- The bytes of an ASCII literal.
abbrev pub str : String → GoString
str String.[] = []
str (String.◌∷◌ c s) = code c ∷ str s

-- `a == b` on strings
unfoldable pub eqs : GoString → GoString → Bool
eqs [] [] = true
eqs [] (b ∷ ys) = false
eqs (a ∷ xs) [] = false
eqs (a ∷ xs) (b ∷ ys) = (a == b) && eqs xs ys

pub eqs_refl : (a : GoString) → eqs a a ≡ true
unfolding eqs
eqs_refl [] = refl
eqs_refl (a ∷ xs) = ground (arith, eqs_refl xs)

pub eqs-ne : (a b : GoString) → eqs a b ≡ false → a ≡ b → ⊥
eqs-ne a b h e = cc (h, eqs_refl b, e)

pub eqs→eq : (a b : GoString) → eqs a b ≡ true → a ≡ b
unfolding eqs
eqs→eq [] [] h = refl
eqs→eq [] (b ∷ ys) h = cc
eqs→eq (a ∷ xs) [] h = cc
eqs→eq (a ∷ xs) (b ∷ ys) h = ground (arith, eqs→eq xs ys)

pub eqs_iff : (a b : GoString) → (eqs a b ≡ true) ↔ (a ≡ b)
eqs_iff a b = (eqs→eq a b, λ e. rw (← e) (eqs_refl a))

-- `a < b` on strings: bytewise, a prefix first
unfoldable pub str_lt : GoString → GoString → Bool
str_lt [] [] = false
str_lt [] (b ∷ ys) = true
str_lt (a ∷ xs) [] = false
str_lt (a ∷ xs) (b ∷ ys) =
    let rest = str_lt xs ys in if ltb a b then true else if ltb b a then false else rest

pub str_lt_irrefl : (a : GoString) → str_lt a a ≡ false
unfolding str_lt
str_lt_irrefl [] = refl
str_lt_irrefl (a ∷ xs) = ground (arith, str_lt_irrefl xs)

pub str_lt_asymm : (a b : GoString) → str_lt a b ≡ true → str_lt b a ≡ false
unfolding str_lt
str_lt_asymm [] [] h = cc
str_lt_asymm [] (b ∷ ys) h = refl
str_lt_asymm (a ∷ xs) [] h = cc
str_lt_asymm (a ∷ xs) (b ∷ ys) h = ground (arith, str_lt_asymm xs ys)

pub str_le_trans : (a b c : GoString) → str_lt b a ≡ false → str_lt c b ≡ false → str_lt c a ≡ false
unfolding str_lt
str_le_trans [] b [] h k = refl
str_le_trans [] b (c ∷ zs) h k = refl
str_le_trans (a ∷ xs) [] c h k = cc
str_le_trans (a ∷ xs) (b ∷ ys) [] h k = cc
str_le_trans (a ∷ xs) (b ∷ ys) (c ∷ zs) h k = ground (arith, str_le_trans xs ys zs)

pub str_le_antisymm : (a b : GoString) → str_lt a b ≡ false → str_lt b a ≡ false → a ≡ b
unfolding str_lt
str_le_antisymm [] [] h k = refl
str_le_antisymm [] (b ∷ ys) h k = cc
str_le_antisymm (a ∷ xs) [] h k = cc
str_le_antisymm (a ∷ xs) (b ∷ ys) h k = ground (arith, str_le_antisymm xs ys)

-- `strings.HasPrefix(s, prefix)`
unfoldable pub has_prefix : GoString → GoString → Bool
has_prefix s [] = true
has_prefix [] (p ∷ ps) = false
has_prefix (c ∷ s) (p ∷ ps) = (c == p) && has_prefix s ps

-- `strings.HasSuffix(s, suffix)`
unfoldable pub has_suffix : GoString → GoString → Bool
unfolding eqs
has_suffix s suffix =
    leb (length suffix) (length s) && eqs (drop (length s - length suffix) s) suffix

-- `strings.TrimSuffix(s, suffix)`
unfoldable pub trim_suffix : GoString → GoString → GoString
unfolding has_suffix
trim_suffix s suffix = if has_suffix s suffix then take (length s - length suffix) s else s

-- `strings.Contains(s, sub)`
unfoldable pub contains : GoString → GoString → Bool
unfolding has_prefix
contains [] sub = has_prefix [] sub
contains (c ∷ s) sub = has_prefix (c ∷ s) sub || contains s sub

cons_head : ℕ → List GoString → List GoString
cons_head c [] = (c ∷ []) ∷ []
cons_head c (w ∷ ws) = (c ∷ w) ∷ ws

-- `strings.Split(s, sep)` for a separator of one byte
unfoldable pub split : ℕ → GoString → List GoString
unfolding cons_head
split sep [] = [] ∷ []
split sep (c ∷ s) = let rest = split sep s in if c == sep then [] ∷ rest else cons_head c rest

-- `strings.Join(parts, sep)`
unfoldable pub join : GoString → List GoString → GoString
join sep [] = []
join sep (w ∷ []) = w
join sep (w ∷ v ∷ ws) = w ++ (sep ++ join sep (v ∷ ws))

after_last_go : ℕ → GoString → GoString → GoString
after_last_go sep [] best = best
after_last_go sep (c ∷ rest) best = after_last_go sep rest (if c == sep then rest else best)

-- What follows the last `sep` of the text, and all of it if there is none:
-- `if i := strings.LastIndex(s, sep); i >= 0 { s = s[i+1:] }`
unfoldable pub after_last : ℕ → GoString → GoString
unfolding after_last_go
after_last sep s = after_last_go sep s s

before_cut : ℕ → Option (GoString × GoString) → Option (GoString × GoString)
before_cut c none = none
before_cut c (some (a, b)) = some (c ∷ a, b)

-- `strings.Cut(s, sep)` for a separator of one byte: none where it is absent
unfoldable pub cut : ℕ → GoString → Option (GoString × GoString)
unfolding before_cut
cut sep [] = none
cut sep (c ∷ s) = let rest = cut sep s in if c == sep then some ([], s) else before_cut c rest

-- `strings.ToLower(s)` on ASCII letters
unfoldable pub lower : ℕ → ℕ
lower c = if leb b'A' c && leb c b'Z' then c + 32 else c

unfoldable pub to_lower : GoString → GoString
unfolding lower
to_lower = map lower

-- `strings.ToUpper(s)` on ASCII letters
pub upper : ℕ → ℕ
upper c = if leb b'a' c && leb c b'z' then c - 32 else c

unfoldable pub to_upper : GoString → GoString
unfolding upper
to_upper = map upper

-- The decimal digits of `n` before `acc`; `fuel` bounds their number.
itoa_go : ℕ → ℕ → GoString → GoString
itoa_go zero n acc = acc
itoa_go (suc fuel) n acc =
    let digit = (b'0' + n % 10) ∷ acc in
    let rest = itoa_go fuel (n / 10) digit in if n / 10 == 0 then digit else rest

-- `strconv.Itoa(n)` of a number that is not negative
unfoldable pub itoa : ℕ → GoString
unfolding itoa_go
itoa n = itoa_go (suc n) n []

space : ℕ → Bool
space c = (leb 9 c && leb c 13) || c == 32

trim_left : GoString → GoString
unfolding space
trim_left [] = []
trim_left (c ∷ s) = let rest = trim_left s in if space c then rest else c ∷ s

keep_unless_blank : ℕ → GoString → GoString
unfolding space
keep_unless_blank c [] = if space c then [] else c ∷ []
keep_unless_blank c (d ∷ rest) = c ∷ d ∷ rest

-- The text without a tail of spaces.
trim_right : GoString → GoString
unfolding keep_unless_blank
trim_right [] = []
trim_right (c ∷ s) = keep_unless_blank c (trim_right s)

-- `strings.TrimSpace(s)` on ASCII spaces
unfoldable pub trim_space : GoString → GoString
unfolding trim_left trim_right
trim_space s = trim_left (trim_right s)

-- `strings.TrimRight(s, "/")` and the like, for a cutset of one byte
unfoldable pub trim_right_byte : ℕ → GoString → GoString
trim_right_byte b [] = []
trim_right_byte b (c ∷ s) = go (trim_right_byte b s)
  where
    go : GoString → GoString
    go [] = if c == b then [] else c ∷ []
    go (d ∷ rest) = c ∷ d ∷ rest
