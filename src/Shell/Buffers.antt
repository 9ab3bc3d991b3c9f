-- ===== src/Shell/Buffers.antt =====
-- Texts that fit a buffer of WORD_SIZE bytes.
use operating_system_profoli.Base.{
  ◌≡◌, true, ◌++◌, Text, arith, length, length-append, lt→ltb, ltb→lt,
}
use operating_system_profoli.Shell.{fits, word_size}

pub fits-prefix : (p q : Text) → fits (p ++ q) ≡ true → fits p ≡ true
fits-prefix p q h =
    lt→ltb (length p) word_size
      (omega (arith, ltb→lt (length (p ++ q)) word_size h, length-append p q))

pub fits-suffix : (p q : Text) → fits (p ++ q) ≡ true → fits q ≡ true
fits-suffix p q h =
    lt→ltb (length q) word_size
      (omega (arith, ltb→lt (length (p ++ q)) word_size h, length-append p q))
