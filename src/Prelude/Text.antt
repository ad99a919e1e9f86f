-- ===== src/Prelude/Text.antt =====
-- Byte strings as lists of numbers: their equality, the bytes of an ASCII literal, and what
-- `core::str::from_utf8` accepts.
use Prim.Native.Char.{code}
use Prim.Native.String.{String}
use Prim.Native.Nat.{ℕ, ◌<◌}
use mathlib.Core.Path.{◌≡◌, refl}
use mathlib.Core.Bool.{Bool, true, false, ◌&&◌}
use mathlib.Core.Option.{Option, none, some}
use mathlib.Core.List.{List, [], ◌∷◌}
use native.Mathlib.Omega.{arith}
use substrate_stablecoin.Prelude.Tests.{ltb, leb, ◌==◌, if◌then◌else◌}
use substrate_stablecoin.Prelude.Lists.{All}

abbrev pub Bytes : Type 0
Bytes = List ℕ

-- The bytes of a literal such as `b"ETH"`.
abbrev pub ascii : String → Bytes
ascii String.[] = []
ascii (String.◌∷◌ c s) = code c ∷ ascii s

abbrev pub same_bytes : Bytes → Bytes → Bool
same_bytes [] [] = true
same_bytes [] (y ∷ ys) = false
same_bytes (x ∷ xs) [] = false
same_bytes (x ∷ xs) (y ∷ ys) = x == y && same_bytes xs ys

pub same_bytes_refl : (xs : Bytes) → same_bytes xs xs ≡ true
same_bytes_refl [] = refl
same_bytes_refl (x ∷ xs) = ground (arith, same_bytes_refl xs)

pub same_bytes-eq : (xs ys : Bytes) → same_bytes xs ys ≡ true → xs ≡ ys
same_bytes-eq [] [] e = refl
same_bytes-eq [] (y ∷ ys) e = cc
same_bytes-eq (x ∷ xs) [] e = cc
same_bytes-eq (x ∷ xs) (y ∷ ys) e = ground (arith, same_bytes-eq xs ys)

-- The bytes that may follow a first byte, as the ranges in which they lie.
unfoldable follow : ℕ → Option (List (ℕ × ℕ))
follow b =
    let any : ℕ × ℕ = (0x80, 0xBF) in
    if ltb b 0x80
    then some []
    else if leb 0xC2 b && leb b 0xDF
    then some (any ∷ [])
    else if b == 0xE0
    then some ((0xA0, 0xBF) ∷ any ∷ [])
    else if b == 0xED
    then some ((0x80, 0x9F) ∷ any ∷ [])
    else if leb 0xE1 b && leb b 0xEF
    then some (any ∷ any ∷ [])
    else if b == 0xF0
    then some ((0x90, 0xBF) ∷ any ∷ any ∷ [])
    else if leb 0xF1 b && leb b 0xF3
    then some (any ∷ any ∷ any ∷ [])
    else if b == 0xF4
    then some ((0x80, 0x8F) ∷ any ∷ any ∷ [])
    else none

-- The bytes that are awaited come first.
unfoldable utf8_from : List (ℕ × ℕ) → Bytes → Bool
unfolding follow
utf8_from [] [] = true
utf8_from (range ∷ ranges) [] = false
utf8_from [] (b ∷ bs) = elim (follow b) [ none ↦ false | some ranges ↦ utf8_from ranges bs ]
utf8_from ((low, high) ∷ ranges) (b ∷ bs) = leb low b && leb b high && utf8_from ranges bs

-- Whether `from_utf8` succeeds.
unfoldable pub from_utf8 : Bytes → Bool
unfolding utf8_from
from_utf8 bs = utf8_from [] bs

follow-ascii : (b : ℕ) → b < 0x80 → follow b ≡ some []
unfolding follow
follow-ascii b h = ground arith

utf8_from-ascii : (bs : Bytes) → All (λ b. b < 0x80) bs → utf8_from [] bs ≡ true
unfolding utf8_from
utf8_from-ascii [] h = refl
utf8_from-ascii (b ∷ bs) h = rw (follow-ascii b h.0, utf8_from) (utf8_from-ascii bs h.1)

pub from_utf8-ascii : (bs : Bytes) → All (λ b. b < 0x80) bs → from_utf8 bs ≡ true
unfolding from_utf8
from_utf8-ascii bs h = utf8_from-ascii bs h
