-- ===== src/LogSimple/Print.antt =====
-- print_on_level (pie/log-simple.c) against the text that a format stands for.
use crtools.Base.{
  ℕ, ◌%◌, ◌^◌, ◌≡◌, refl, sym, ap, ◌∙◌, Bool, true, false, ◌||◌, List, [], ◌∷◌, ◌++◌, Res, ok, bug,
  ◌>>=◌, Bool-cases, inl, inr, ltb, ◌==◌, if◌then◌else◌, length, append_assoc, append-nil,
}
use crtools.LogSimple.{
  log_simple_chunk, SimpleBuf, sbuf_init, sbuf_flush, sbuf_putc, num_text, vprint_num, print_num,
  print_num_l, hex_text, hex_text_l, print_hex, print_hex_l, Arg, text, word, Place, plain, percent,
  along, along_along, convert, print_format, print_on_level,
}
use crtools.LogSimple.Chunks.{
  IsOpen, printed, chunks_text, Prints, print_string-Prints, sbuf_putc-IsOpen, sbuf_putc-printed,
  sbuf_init-IsOpen, sbuf_init-printed, sbuf_flush-written, Writes, Writes-none, Writes-then,
  sbuf_init-Writes, sbuf_putc-Writes, sbuf_flush-Writes,
}

-- The text of one argument: decimal or hexadecimal, of 64 bits or of the low 32.
abbrev pub arg_text : (long : Bool) → ℕ → List Arg → Res (List Arg × List ℕ)
arg_text long c [] = if (c == 115) || (c == 100) || (c == 120) then bug else ok ([], [])
arg_text long c (text s ∷ args) =
    if c == 115
    then ok (args, s)
    else if (c == 100) || (c == 120)
    then bug
    else ok (text s ∷ args, [])
arg_text long c (word n ∷ args) =
    if c == 115
    then bug
    else if c == 100
    then ok (args, if long then num_text 64 n else num_text 32 (n % 2 ^ 32))
    else if c == 120
    then ok (args, if long then hex_text_l n else hex_text (n % 2 ^ 32))
    else ok (word n ∷ args, [])

abbrev before : List ℕ → Res (List ℕ) → Res (List ℕ)
before s r = r >>= λ t. ok (s ++ t)

-- The text that a format and its arguments stand for.
unfoldable pub expand : Place → List ℕ → List Arg → Res (List ℕ)
expand plain [] args = ok []
expand percent [] args = bug
expand along [] args = bug
expand along_along [] args = bug
expand plain (c ∷ s) args = elim (c == 37) [
  | true ↦ expand percent s args
  | false ↦ before (c ∷ []) (expand plain s args)
]
expand percent (c ∷ s) args = elim (c == 108) [
  | true ↦ expand along s args
  | false ↦ arg_text false c args >>= λ r. before r.1 (expand plain s r.0)
]
expand along (c ∷ s) args = elim (c == 108) [
  | true ↦ expand along_along s args
  | false ↦ arg_text true c args >>= λ r. before r.1 (expand plain s r.0)
]
expand along_along (c ∷ s) args = arg_text true c args >>= λ r. before r.1 (expand plain s r.0)

-- The code does what the specification says: both stop at undefined behaviour, or the text is printed.
data Agrees (b : SimpleBuf) : Res (List ℕ) → Res SimpleBuf → Type 0 where
  undefined : Agrees b bug bug
  prints : (msg : List ℕ) (b' : SimpleBuf) → Prints msg b b' → Agrees b (ok msg) (ok b')

data Converts (b : SimpleBuf) : Res (List Arg × List ℕ) → Res (List Arg × SimpleBuf) → Type 0 where
  undefined : Converts b bug bug
  converts :
      (args : List Arg) (msg : List ℕ) (b' : SimpleBuf)
      → Prints msg b b'
      → Converts b (ok (args, msg)) (ok (args, b'))

nothing-Prints : (b : SimpleBuf) → IsOpen b → Prints [] b b
nothing-Prints b o = record {
  open' = o;
  adds = sym (append-nil (printed b));
  writes = Writes-none b b refl;
}

convert-Converts :
    (long : Bool) (c : ℕ) (args : List Arg) (b : SimpleBuf)
    → IsOpen b
    → Converts b (arg_text long c args) (convert long c args b)
unfolding convert print_num print_num_l print_hex print_hex_l vprint_num
convert-Converts long c [] b o = elim (Bool-cases ((c == 115) || (c == 100) || (c == 120))) [
  | inl e ↦ rw e undefined
  | inr e ↦ rw e (converts [] [] b (nothing-Prints b o))
]
convert-Converts long c (text s ∷ args) b o = elim (Bool-cases (c == 115)) [
  | inl e ↦ rw e (converts args s _ (print_string-Prints s b o))
  | inr e ↦ elim (Bool-cases ((c == 100) || (c == 120))) [
    | inl e2 ↦ rw (e, e2) undefined
    | inr e2 ↦ rw (e, e2) (converts (text s ∷ args) [] b (nothing-Prints b o))
  ]
]
convert-Converts long c (word n ∷ args) b o = elim (Bool-cases (c == 115)) [
  | inl e ↦ rw e undefined
  | inr e ↦ elim (Bool-cases (c == 100)) [
    | inl e2 ↦ rw (e, e2) (decimal long)
    | inr e2 ↦ elim (Bool-cases (c == 120)) [
      | inl e3 ↦ rw (e, e2, e3) (hexadecimal long)
      | inr e3 ↦ rw (e, e2, e3) (converts (word n ∷ args) [] b (nothing-Prints b o))
    ]
  ]
]
  where
    decimal :
        (l : Bool)
        → Converts b
            (ok (args, if l then num_text 64 n else num_text 32 (n % 2 ^ 32)))
            (ok (args, if l then print_num_l n b else print_num (n % 2 ^ 32) b))
    decimal true = converts args _ _ (print_string-Prints (num_text 64 n) b o)
    decimal false = converts args _ _ (print_string-Prints (num_text 32 (n % 2 ^ 32)) b o)

    hexadecimal :
        (l : Bool)
        → Converts b
            (ok (args, if l then hex_text_l n else hex_text (n % 2 ^ 32)))
            (ok (args, if l then print_hex_l n b else print_hex (n % 2 ^ 32) b))
    hexadecimal true = converts args _ _ (print_string-Prints (hex_text_l n) b o)
    hexadecimal false = converts args _ _ (print_string-Prints (hex_text (n % 2 ^ 32)) b o)

-- What was printed first and what the rest prints.
after-Agrees :
    (msg : List ℕ) (b b' : SimpleBuf) (spec : Res (List ℕ)) (run : Res SimpleBuf)
    → Prints msg b b'
    → Agrees b' spec run
    → Agrees b (before msg spec) run
after-Agrees msg b b' _ _ p undefined = undefined
after-Agrees msg b b' _ _ p (prints more b2 q) = prints (msg ++ more) b2 (record {
  open' = q.open';
  adds = q.adds ∙ ap (λ l. l ++ more) p.adds ∙ append_assoc (printed b) msg more;
  writes = Writes-then b b' b2 p.writes q.writes;
})

module _ (s : List ℕ)
    (rest : (args : List Arg) (b : SimpleBuf)
      → IsOpen b
      → Agrees b (expand plain s args) (print_format plain s args b)) where
  converted :
      (b : SimpleBuf) (spec : Res (List Arg × List ℕ)) (run : Res (List Arg × SimpleBuf))
      → Converts b spec run
      → Agrees b
          (spec >>= λ r. before r.1 (expand plain s r.0))
          (run >>= λ r. print_format plain s r.0 r.1)
  converted b _ _ undefined = undefined
  converted b _ _ (converts args msg b' p) = after-Agrees msg b b' _ _ p (rest args b' p.open')

print_format-Agrees :
    (at' : Place) (format : List ℕ) (args : List Arg) (b : SimpleBuf)
    → IsOpen b
    → Agrees b (expand at' format args) (print_format at' format args b)
unfolding print_format expand
print_format-Agrees plain [] args b o = prints [] b (nothing-Prints b o)
print_format-Agrees percent [] args b o = undefined
print_format-Agrees along [] args b o = undefined
print_format-Agrees along_along [] args b o = undefined
print_format-Agrees plain (c ∷ s) args b o = elim (Bool-cases (c == 37)) [
  | inl e ↦ rw (print_format, expand, e) (print_format-Agrees percent s args b o)
  | inr e ↦
      rw (print_format, expand, e)
        (after-Agrees (c ∷ []) b (sbuf_putc c b) _ _
          (record {
            open' = sbuf_putc-IsOpen c b o;
            adds = sbuf_putc-printed c b o;
            writes = sbuf_putc-Writes c b o;
          })
          (print_format-Agrees plain s args (sbuf_putc c b) (sbuf_putc-IsOpen c b o)))
]
print_format-Agrees percent (c ∷ s) args b o = elim (Bool-cases (c == 108)) [
  | inl e ↦ rw (print_format, expand, e) (print_format-Agrees along s args b o)
  | inr e ↦
      rw (print_format, expand, e)
        (converted s (print_format-Agrees plain s) b _ _ (convert-Converts false c args b o))
]
print_format-Agrees along (c ∷ s) args b o = elim (Bool-cases (c == 108)) [
  | inl e ↦ rw (print_format, expand, e) (print_format-Agrees along_along s args b o)
  | inr e ↦
      rw (print_format, expand, e)
        (converted s (print_format-Agrees plain s) b _ _ (convert-Converts true c args b o))
]
print_format-Agrees along_along (c ∷ s) args b o =
    converted s (print_format-Agrees plain s) b _ _ (convert-Converts true c args b o)

-- What a call of `print_on_level` writes: chunks with the prefix and the mark, whose text is the message.
pub data Logs (b : SimpleBuf) : Res (List ℕ) → Res SimpleBuf → Type 0 where
  undefined : Logs b bug bug
  logged :
      (msg : List ℕ) (b' : SimpleBuf)
      → chunks_text b'.written ≡ chunks_text b.written ++ msg
      → Writes b b'
      → Logs b (ok msg) (ok b')

flushed :
    (b : SimpleBuf) (spec : Res (List ℕ)) (run : Res SimpleBuf)
    → Agrees (sbuf_init b) spec run
    → Logs b spec (run >>= λ b'. ok (sbuf_flush b'))
flushed b _ _ undefined = undefined
flushed b _ _ (prints msg b' p) =
    logged msg (sbuf_flush b')
      (sbuf_flush-written b' p.open' ∙ p.adds ∙ ap (λ l. l ++ msg) (sbuf_init-printed b))
      (Writes-then b (sbuf_init b) (sbuf_flush b') (sbuf_init-Writes b)
        (Writes-then (sbuf_init b) b' (sbuf_flush b') p.writes (sbuf_flush-Writes b' p.open')))

-- A message of an enabled level is logged as the text that its format and arguments stand for. What is written for it
-- are chunks that each hold the prefix "pie: ", some of the text, and, exactly if that is 65 bytes, the mark ">" with a
-- line feed; their texts in turn are the message. A format that ends inside a conversion
-- or has a wrong or missing argument is undefined behaviour, and nothing else is.
pub print_on_level-Logs :
    (cur_loglevel loglevel : ℕ) (format : List ℕ) (args : List Arg) (b : SimpleBuf)
    → ltb cur_loglevel loglevel ≡ false
    → length b.buf ≡ log_simple_chunk
    → Logs b (expand plain format args) (print_on_level cur_loglevel loglevel format args b)
unfolding print_on_level
print_on_level-Logs cur_loglevel loglevel format args b h e =
    rw h
      (flushed b _ _ (print_format-Agrees plain format args (sbuf_init b) (sbuf_init-IsOpen b e)))
