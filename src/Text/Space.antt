-- ===== src/Text/Space.antt =====
-- White space: `strip()` and `split()` with no argument.
use curator_spec.Prelude.{
  Bool, List, [], if◌then◌else◌, leb, reverse, ℕ, ◌&&◌, ◌++◌, ◌==◌, ◌||◌, ◌∷◌,
}
use curator_spec.Text.{Text}

-- the characters for which `str.isspace` holds
unfoldable pub is_space : ℕ → Bool
is_space c =
    (leb 9 c && leb c 13)
    || ((leb 28 c && leb c 32)
        || (c == 133
            || (c == 160
                || (c == 5760
                    || ((leb 8192 c && leb c 8202)
                        || (c == 8232
                            || (c == 8233 || (c == 8239 || (c == 8287 || c == 12288)))))))))

lstrip : Text → Text
unfolding is_space
lstrip [] = []
lstrip (c ∷ s) = let rest = lstrip s in if is_space c then rest else c ∷ s

-- `s.strip()`
unfoldable pub strip : Text → Text
unfolding lstrip
strip s = reverse (lstrip (reverse (lstrip s)))

-- a finished word
unfoldable pub flush : Text → List Text
flush [] = []
flush (c ∷ w) = reverse (c ∷ w) ∷ []

-- the words of `s`, behind the letters of the current word, last letter first
unfoldable pub words_from : Text → Text → List Text
unfolding is_space flush
words_from word [] = flush word
words_from word (c ∷ s) =
    let next = flush word ++ words_from [] s in
    let more = words_from (c ∷ word) s in if is_space c then next else more

-- `s.split()`
unfoldable pub words : Text → List Text
unfolding words_from
words s = words_from [] s
