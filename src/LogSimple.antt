-- ===== src/LogSimple.antt =====
-- pie/log-simple.c: the log of the code that is injected into other processes.
pub mod Chunks
pub mod Decimal
pub mod Hex
pub mod Print
use crtools.Base.{
  ℕ, zero, suc, ◌+◌, ◌-◌, ◌*◌, ◌/◌, ◌%◌, ◌^◌, Bool, true, false, ◌||◌, List, [], ◌∷◌, ◌++◌, Res, ok,
  err, bug, ◌>>=◌, ltb, leb, ◌==◌, if◌then◌else◌, get_or, set, take, drop, replicate,
}

abbrev pub log_simple_chunk : ℕ
log_simple_chunk = 72

-- `struct simple_buf`, with `bp` as its offset in `buf`, and what was written to `logfd` so far, one
-- element a call of sys_write.
pub record SimpleBuf : Type 0 where
  pub buf : List ℕ
  pub bp : ℕ
  pub written : List (List ℕ)

-- "pie: "
abbrev pub pie : List ℕ → List ℕ
pie buf = set (set (set (set (set buf 0 112) 1 105) 2 101) 3 58) 4 32

unfoldable pub sbuf_init : SimpleBuf → SimpleBuf
sbuf_init b = record b { buf = pie b.buf; bp = 5 }

unfoldable pub sbuf_flush : SimpleBuf → SimpleBuf
unfolding sbuf_init
sbuf_flush b =
    if b.bp == 5 then b else sbuf_init (record b { written = b.written ++ take b.bp b.buf ∷ [] })

-- `>` is 62 and the line feed is 10.
unfoldable pub sbuf_putc : ℕ → SimpleBuf → SimpleBuf
unfolding sbuf_flush
sbuf_putc c b =
    let b1 = record b { buf = set b.buf b.bp c; bp = b.bp + 1 } in
    if leb (log_simple_chunk - 2) b1.bp
    then sbuf_flush (record b1 { buf = set (set b1.buf b1.bp 62) (b1.bp + 1) 10; bp = b1.bp + 2 })
    else b1

-- A string is its bytes without the terminator.
unfoldable pub print_string : List ℕ → SimpleBuf → SimpleBuf
unfolding sbuf_putc
print_string [] b = b
print_string (c ∷ msg) b = print_string msg (sbuf_putc c b)

-- `while (num > 0)`, writing from the end of the buffer: `s` is what stands from there on. The
-- fuel is one more than the number of decimal digits at most.
unfoldable pub put_digits : (fuel : ℕ) → ℕ → List ℕ → List ℕ
put_digits zero num s = s
put_digits (suc fuel) num s = elim (num == 0) [
  | true ↦ s
  | false ↦ put_digits fuel (num / 10) ((num % 10 + 48) ∷ s)
]

-- The text of a signed number of `w` bits: its negative is taken in `w` bits, so that the least number
-- stays negative and has no digits.
unfoldable pub num_text : (w : ℕ) → ℕ → List ℕ
unfolding put_digits
num_text w num =
    if num == 0
    then 48 ∷ []
    else if ltb num (2 ^ (w - 1))
    then put_digits 21 num []
    else 45 ∷ (if num == 2 ^ (w - 1) then [] else put_digits 21 (2 ^ w - num) [])

-- `vprint_num`, whose result is the length of the text.
unfoldable pub vprint_num : ℕ → List ℕ
unfolding num_text
vprint_num num = num_text 32 num

unfoldable pub print_num : ℕ → SimpleBuf → SimpleBuf
unfolding vprint_num print_string
print_num num b = print_string (vprint_num num) b

unfoldable pub print_num_l : ℕ → SimpleBuf → SimpleBuf
unfolding num_text print_string
print_num_l num b = print_string (num_text 64 num) b

-- A buffer and the offset `z` of its first digit that counts.
pub record HexBuf : Type 0 where
  pub buf : List ℕ
  pub z : ℕ

abbrev pub hex_char : ℕ → ℕ
hex_char d = if ltb d 10 then 48 + d else 87 + d

unfoldable pub hexdigit : ℕ → (to : ℕ) → HexBuf → HexBuf
hexdigit v to h = record {
  buf = set h.buf to (hex_char (v % 16));
  z = if v % 16 == 0 then h.z else to;
}

-- The calls `hexdigit(num >> 0, &buf[to], &z); hexdigit(num >> 4, &buf[to - 1], &z); …`
unfoldable pub hexdigits : (calls : ℕ) → ℕ → (to : ℕ) → HexBuf → HexBuf
unfolding hexdigit
hexdigits zero num to h = h
hexdigits (suc calls) num to h = hexdigits calls (num / 16) (to - 1) (hexdigit num to h)

-- `z -= 2; z[0] = '0'; z[1] = 'x';` and the string from there.
abbrev pub hex_string : HexBuf → List ℕ
hex_string h = drop (h.z - 2) (set (set h.buf (h.z - 2) 48) (h.z - 1) 120)

unfoldable pub hex_text : ℕ → List ℕ
unfolding hexdigits
hex_text num = hex_string (hexdigits 8 num 9 (record { buf = replicate 10 0; z = 9 }))

unfoldable pub hex_text_l : ℕ → List ℕ
unfolding hexdigits
hex_text_l num = hex_string (hexdigits 16 num 17 (record { buf = replicate 18 0; z = 17 }))

unfoldable pub print_hex : ℕ → SimpleBuf → SimpleBuf
unfolding hex_text print_string
print_hex num b = print_string (hex_text num) b

-- With BITS_PER_LONG == 64.
unfoldable pub print_hex_l : ℕ → SimpleBuf → SimpleBuf
unfolding hex_text_l print_string
print_hex_l num b = print_string (hex_text_l num) b

-- A variadic argument: a string, or a word whose low 32 bits are read for an `int`.
pub data Arg : Type 0 where
  text : List ℕ → Arg
  word : ℕ → Arg

-- Where the loop of `print_on_level` is: in the text, behind a `%`, behind `%l`, behind `%ll`.
pub data Place : Type 0 where
  plain : Place
  percent : Place
  along : Place
  along_along : Place

-- The `switch` on the conversion: a wrong or missing argument is undefined behaviour, and a conversion
-- that is not known takes none.
unfoldable pub convert : (long : Bool) → ℕ → List Arg → SimpleBuf → Res (List Arg × SimpleBuf)
unfolding print_string print_num print_num_l print_hex print_hex_l
convert long c [] b = if (c == 115) || (c == 100) || (c == 120) then bug else ok ([], b)
convert long c (text s ∷ args) b =
    if c == 115
    then ok (args, print_string s b)
    else if (c == 100) || (c == 120)
    then bug
    else ok (text s ∷ args, b)
convert long c (word n ∷ args) b =
    if c == 115
    then bug
    else if c == 100
    then ok (args, if long then print_num_l n b else print_num (n % 2 ^ 32) b)
    else if c == 120
    then ok (args, if long then print_hex_l n b else print_hex (n % 2 ^ 32) b)
    else ok (word n ∷ args, b)

-- The loop over the format, whose end inside a conversion makes the source read past the string.
unfoldable pub print_format : Place → List ℕ → List Arg → SimpleBuf → Res SimpleBuf
unfolding convert sbuf_putc
print_format plain [] args b = ok b
print_format percent [] args b = bug
print_format along [] args b = bug
print_format along_along [] args b = bug
print_format plain (c ∷ s) args b = elim (c == 37) [
  | true ↦ print_format percent s args b
  | false ↦ print_format plain s args (sbuf_putc c b)
]
print_format percent (c ∷ s) args b = elim (c == 108) [
  | true ↦ print_format along s args b
  | false ↦ convert false c args b >>= λ r. print_format plain s r.0 r.1
]
print_format along (c ∷ s) args b = elim (c == 108) [
  | true ↦ print_format along_along s args b
  | false ↦ convert true c args b >>= λ r. print_format plain s r.0 r.1
]
print_format along_along (c ∷ s) args b =
    convert true c args b >>= λ r. print_format plain s r.0 r.1

unfoldable pub print_on_level :
    (cur_loglevel loglevel : ℕ) → List ℕ → List Arg → SimpleBuf → Res SimpleBuf
unfolding print_format sbuf_init sbuf_flush
print_on_level cur_loglevel loglevel format args b =
    if ltb cur_loglevel loglevel
    then ok b
    else print_format plain format args (sbuf_init b) >>= λ b'. ok (sbuf_flush b')
