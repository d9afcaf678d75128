-- ===== src/Prelude/Text.antt =====
-- Text that the program walks: a list of code points. Python's `str` methods on it.
use Prim.Native.Nat.{ℕ, zero, suc, ◌+◌, ◌/◌, ◌%◌}
use Prim.Native.Char.{code}
use Prim.Native.String.{String}
use mathlib.Core.Bool.{Bool, true, false, ◌&&◌, ◌||◌}
use mathlib.Core.List.{List, [], ◌∷◌, ◌++◌, reverse}
use agents_universe.Prelude.Tests.{ltb, leb, ◌==◌, if◌then◌else◌}

abbrev pub Text : Type 0
Text = List ℕ

-- The code points of a literal.
abbrev pub codes : String → Text
codes String.[] = []
codes (String.◌∷◌ c s) = code c ∷ codes s

-- `str.isspace` of one character: what `strip()` and `split()` take off.
abbrev pub is_space : ℕ → Bool
is_space c =
    (leb 9 c && leb c 13)
    || ((leb 28 c && leb c 32)
        || (c == 0x85
            || (c == 0xa0
                || (c == 0x1680
                    || ((leb 0x2000 c && leb c 0x200a)
                        || (c == 0x2028
                            || (c == 0x2029 || (c == 0x202f || (c == 0x205f || c == 0x3000)))))))))

abbrev pub text_eq : Text → Text → Bool
text_eq [] [] = true
text_eq [] (d ∷ t) = false
text_eq (c ∷ s) [] = false
text_eq (c ∷ s) (d ∷ t) = c == d && text_eq s t

-- `c in text`
abbrev pub has_char : ℕ → Text → Bool
has_char c [] = false
has_char c (d ∷ t) = d == c || has_char c t

-- text.lstrip()
unfoldable pub lstrip : Text → Text
lstrip [] = []
lstrip (c ∷ t) = let rest = lstrip t in if is_space c then rest else c ∷ t

-- text.strip()
unfoldable pub strip : Text → Text
unfolding lstrip
strip t = reverse (lstrip (reverse (lstrip t)))

-- text.isascii()
unfoldable pub isascii : Text → Bool
isascii [] = true
isascii (c ∷ t) = ltb c 128 && isascii t

-- text.partition(c): what stands before the first `c`, and what stands after it.
unfoldable pub partition : ℕ → Text → Text × Text
partition c [] = ([], [])
partition c (d ∷ t) =
    let (before, after) = partition c t in if d == c then ([], t) else (d ∷ before, after)

abbrev prepend : ℕ → List Text → List Text
prepend c [] = (c ∷ []) ∷ []
prepend c (w ∷ ws) = (c ∷ w) ∷ ws

-- text.split(c) for a character `c`: never empty.
unfoldable pub split_on : ℕ → Text → List Text
split_on c [] = [] ∷ []
split_on c (d ∷ t) = let rest = split_on c t in if d == c then [] ∷ rest else prepend d rest

abbrev pub add_word : Text → List Text → List Text
add_word [] ws = ws
add_word w ws = w ∷ ws

-- `word` holds, backwards, the characters of the word that is being read.
unfoldable pub words_from : Text → Text → List Text
words_from word [] = add_word (reverse word) []
words_from word (c ∷ t) =
    let ended = add_word (reverse word) (words_from [] t) in
    let longer = words_from (c ∷ word) t in if is_space c then ended else longer

-- text.split()
unfoldable pub split : Text → List Text
unfolding words_from
split t = words_from [] t

-- str(n), with fuel for the digits.
digits_of : ℕ → ℕ → Text → Text
digits_of zero n t = t
digits_of (suc fuel) n t =
    let c = b'0' + n % 10 in
    let rest = digits_of fuel (n / 10) (c ∷ t) in if ltb n 10 then c ∷ t else rest

unfoldable pub str : ℕ → Text
unfolding digits_of
str n = digits_of (suc n) n []

-- sep.join(texts)
unfoldable pub join : Text → List Text → Text
join sep [] = []
join sep (t ∷ []) = t
join sep (t ∷ u ∷ ts) = t ++ (sep ++ join sep (u ∷ ts))

-- `part in text`
unfoldable pub starts_with : Text → Text → Bool
starts_with [] t = true
starts_with (c ∷ p) [] = false
starts_with (c ∷ p) (d ∷ t) = c == d && starts_with p t

unfoldable pub contains : Text → Text → Bool
contains [] p = starts_with p []
contains (c ∷ t) p = starts_with p (c ∷ t) || contains t p

-- text.rpartition(c): what stands before the last `c`, and what stands after it.
unfoldable pub rpartition : ℕ → Text → Text × Text
rpartition c [] = ([], [])
rpartition c (d ∷ t) =
    let (before, after) = rpartition c t in
    if has_char c t then (d ∷ before, after) else if d == c then ([], t) else ([], d ∷ t)

-- text.endswith(p)
unfoldable pub ends_with : Text → Text → Bool
unfolding starts_with
ends_with p t = starts_with (reverse p) (reverse t)

-- s < t by code points
unfoldable pub text_lt : Text → Text → Bool
text_lt [] [] = false
text_lt [] (d ∷ t) = true
text_lt (c ∷ s) [] = false
text_lt (c ∷ s) (d ∷ t) = ltb c d || (c == d && text_lt s t)
