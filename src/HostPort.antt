-- ===== src/HostPort.antt =====
-- What queqiao/internal/session uses of Go's strings, net and strconv: strings.TrimSpace,
-- net.SplitHostPort, net.JoinHostPort, strconv.Atoi and strconv.Itoa. A string is a list of bytes.
pub mod Trim
pub mod Split
pub mod Decimal
use sing_quic.Prelude.{
  ℕ, zero, suc, ◌+◌, ◌-◌, ◌*◌, ◌/◌, ◌%◌, Bool, true, false, not, ◌&&◌, ◌||◌, Option, none, some,
  List, [], ◌∷◌, ◌++◌, ltb, leb, ◌==◌, if◌then◌else◌, length, get_or, take, drop,
}

-- The spaces of one byte, of two and of three that unicode.IsSpace knows.
unfoldable pub ascii_space : ℕ → Bool
ascii_space a = (leb 9 a && leb a 13) || a == 32

unfoldable pub latin_space : ℕ → ℕ → Bool
latin_space a b = a == 0xc2 && (b == 0x85 || b == 0xa0)

unfoldable pub wide_space : ℕ → ℕ → ℕ → Bool
wide_space a b c =
    (a == 0xe1 && b == 0x9a && c == 0x80)
    || ((a == 0xe2
          && b == 0x80
          && ((leb 0x80 c && leb c 0x8a) || c == 0xa8 || c == 0xa9 || c == 0xaf))
        || ((a == 0xe2 && b == 0x81 && c == 0x9f) || (a == 0xe3 && b == 0x80 && c == 0x80)))

-- The bytes of the space that a string starts with; 0 where it starts with none.
unfoldable pub space_size : List ℕ → ℕ
space_size s =
    if ascii_space (get_or s 0 0)
    then 1
    else if latin_space (get_or s 0 0) (get_or s 1 0)
    then 2
    else if wide_space (get_or s 0 0) (get_or s 1 0) (get_or s 2 0)
    then 3
    else 0

-- The bytes of the space that it ends with. A byte cannot be both the first and a later one of a
-- rune, so that a subtraction that stops at 0 finds nothing more.
unfoldable pub end_space_size : List ℕ → ℕ
end_space_size s =
    if ascii_space (get_or s (length s - 1) 0)
    then 1
    else if latin_space (get_or s (length s - 2) 0) (get_or s (length s - 1) 0)
    then 2
    else if wide_space (get_or s (length s - 3) 0) (get_or s (length s - 2) 0)
        (get_or s (length s - 1) 0)
    then 3
    else 0

-- The fuel is the length: each round takes a byte or more.
unfoldable pub trim_left : ℕ → List ℕ → List ℕ
trim_left zero s = s
trim_left (suc fuel) s =
    let rest = trim_left fuel (drop (space_size s) s) in if space_size s == 0 then s else rest

unfoldable pub trim_right : ℕ → List ℕ → List ℕ
trim_right zero s = s
trim_right (suc fuel) s =
    let rest = trim_right fuel (take (length s - end_space_size s) s) in
    if end_space_size s == 0 then s else rest

unfoldable pub trim_space : List ℕ → List ℕ
trim_space s = let t = trim_left (length s) s in trim_right (length t) t

unfoldable pub contains : ℕ → List ℕ → Bool
contains c [] = false
contains c (x ∷ xs) = x == c || contains c xs

unfoldable pub has_bracket : List ℕ → Bool
has_bracket s = contains b'[' s || contains b']' s

pub record Pair : Type 0 where
  pub before : List ℕ
  pub after : List ℕ

-- The parts before and behind the last `c`.
unfoldable pub cut_last : ℕ → List ℕ → Option Pair
cut_last c [] = none
cut_last c (x ∷ xs) = elim (cut_last c xs) [
  | some p ↦ some (record p { before = x ∷ p.before })
  | none ↦ if x == c then some (record { before = []; after = xs }) else none
]

-- A host in brackets: the first `]` stands just before the last colon.
unfoldable pub bracketed : Option Pair → List ℕ → Option Pair
bracketed none port = none
bracketed (some p) port =
    if length p.after == 0 && (not (has_bracket p.before) && not (has_bracket port))
    then some (record { before = p.before; after = port })
    else none

unfoldable pub bare : List ℕ → List ℕ → Option Pair
bare host port =
    if contains b':' host || (has_bracket host || has_bracket port)
    then none
    else some (record { before = host; after = port })

unfoldable pub split_around : Option Pair → Option Pair
split_around none = none
split_around (some p) =
    if get_or p.before 0 0 == b'['
    then bracketed (cut_last b']' (drop 1 p.before)) p.after
    else bare p.before p.after

-- net.SplitHostPort: the host and the port, or `none` for its errors, which are told apart nowhere.
unfoldable pub split_host_port : List ℕ → Option Pair
split_host_port s = split_around (cut_last b':' s)

-- net.JoinHostPort
unfoldable pub join_host_port : List ℕ → List ℕ → List ℕ
join_host_port host port =
    if contains b':' host then b'[' ∷ (host ++ (b']' ∷ b':' ∷ port)) else host ++ (b':' ∷ port)

unfoldable pub is_digit : ℕ → Bool
is_digit c = leb b'0' c && leb c b'9'

unfoldable pub parse : ℕ → List ℕ → Option ℕ
parse v [] = some v
parse v (c ∷ cs) = let rest = parse (10 * v + (c - b'0')) cs in if is_digit c then rest else none

unfoldable pub parse_digits : List ℕ → Option ℕ
parse_digits [] = none
parse_digits (c ∷ cs) = parse 0 (c ∷ cs)

-- strconv.Atoi for a value that is used where it is positive: `none` for a syntax error, 0 for a
-- number below 1. The range of int is far above every bound that the callers test.
unfoldable pub atoi : List ℕ → Option ℕ
atoi [] = none
atoi (c ∷ cs) =
    if c == b'+'
    then parse_digits cs
    else if c == b'-'
    then elim (parse_digits cs) [ none ↦ none | some v ↦ some 0 ]
    else parse_digits (c ∷ cs)

-- The digits of `n` before `acc`; each round takes one.
unfoldable pub digits : ℕ → ℕ → List ℕ → List ℕ
digits zero n acc = acc
digits (suc fuel) n acc =
    let rest = digits fuel (n / 10) ((b'0' + n % 10) ∷ acc) in
    if ltb n 10 then (b'0' + n) ∷ acc else rest

-- strconv.Itoa
unfoldable pub itoa : ℕ → List ℕ
itoa n = digits (suc n) n []
