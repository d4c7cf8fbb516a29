-- ===== src/Hyper/Macros.antt =====
-- src/hyper/macro.c: the arguments of a macro and the stack of parameter lists. The scanner is that of
-- src/hyper/lex.c; a `char` 255 is EOF, as the code stores what get_char gives in a `char`.
pub mod Arguments
pub mod Calls
pub mod Ends
pub mod Load
use open_axiom.Prelude.{
  ◌^◌, ℕ, zero, suc, ◌+◌, ◌-◌, ◌*◌, Bool, true, false, not, Option, none, some, List, [], ◌∷◌, ◌++◌,
  ◌==◌, ltb, leb, ◌&&◌, ◌||◌, if◌then◌else◌, length,
}
use open_axiom.Hyper.Lex.{
  Outcome, ok, jumped, fault, out_of_fuel, ◌>>=◌, kind, eof, Scanner, TokenType, get_char,
  lbrace_token,
}
use open_axiom.Hyper.Lex.Get.{Tables, take_run, is_digit}
use open_axiom.Hyper.Lex.Scan.{get_token}

-- `struct parameter_list_type` without its link; `number` is the length of the list.
abbrev pub ParameterList : Type 0
ParameterList = List (List ℕ)

unfoldable pub number : List ℕ → Bool
number [] = true
number (c ∷ cs) = is_digit c && number cs

-- The value of digits.
unfoldable pub atoi_from : (value : ℕ) → List ℕ → ℕ
atoi_from v [] = v
atoi_from v (c ∷ cs) = atoi_from (10 * v + (c - b'0')) cs

abbrev pub int_limit : ℕ
int_limit = 2 ^ 31

-- atoi on digits; C leaves open what it does for a value that an `int` of 32 bits does not hold.
unfoldable pub atoi : List ℕ → Outcome ℕ
unfolding atoi_from
atoi w = if leb int_limit (atoi_from 0 w) then fault else ok (atoi_from 0 w)

unfoldable pub push_parameters : ParameterList → List ParameterList → List ParameterList
push_parameters parms parameters = parms ∷ parameters

unfoldable pub pop_parameters : List ParameterList → Bool × List ParameterList
pop_parameters [] = (false, [])
pop_parameters (old ∷ below) = (true, below)

-- `(parameters->list)[k - 1]`
unfoldable pub parameter : ParameterList → (k : ℕ) → Outcome (List ℕ)
parameter [] k = fault
parameter (p ∷ ps) zero = fault
parameter (p ∷ ps) (suc zero) = ok p
parameter (p ∷ ps) (suc (suc k)) = parameter ps (suc k)

-- `parameters` is read without a test.
unfoldable pub top_parameter : List ParameterList → (k : ℕ) → Outcome (List ℕ)
unfolding parameter
top_parameter [] k = fault
top_parameter (top ∷ below) k = parameter top k

unfoldable pub ends_escaped : (buf : List ℕ) → Bool
ends_escaped [] = false
ends_escaped (c ∷ []) = c == b'\\'
ends_escaped (c ∷ d ∷ ds) = ends_escaped (d ∷ ds)

abbrev pub no_parameters : List ParameterList → Bool
no_parameters [] = true
no_parameters (_ ∷ _) = false

abbrev pub refers : List ParameterList → (buf : List ℕ) → Bool
refers parameters buf = not (no_parameters parameters || ends_escaped buf)

-- `#`: the number behind it, of at most four digits, and the text of the parameter.
unfoldable pub reference :
    (next : List ℕ → Scanner → Outcome (List ℕ × Scanner)) (f : ℕ) (use_ascii : Bool)
    (parameters : List ParameterList) (buf : List ℕ)
    → Scanner
    → Outcome (List ℕ × Scanner)
unfolding take_run top_parameter atoi
reference next f a parameters buf s = take_run f a is_digit [] s >>= λ (digits, t).
    if leb 5 (length digits)
    then fault
    else (atoi digits >>= λ k. top_parameter parameters k >>= λ w. next (buf ++ w) t)

-- The switch on one character, with `braces` open.
unfoldable pub argument_char :
    (next : ℕ → List ℕ → Scanner → Outcome (List ℕ × Scanner)) (f : ℕ) (use_ascii : Bool)
    (parameters : List ParameterList) (braces : ℕ) (buf : List ℕ) (c : Option ℕ)
    → Scanner
    → Outcome (List ℕ × Scanner)
unfolding reference ends_escaped
argument_char next f a parameters braces buf none s = jumped
argument_char next f a parameters braces buf (some c) s =
    let longer = buf ++ c ∷ [] in
    if c == 255
    then jumped
    else if c == b'}'
    then if braces == 1 then ok (buf, s) else next (braces - 1) longer s
    else if c == b'{'
    then next (braces + 1) longer s
    else if c == b'#' && refers parameters buf
    then reference (next braces) f a parameters buf s
    else next braces longer s

-- `for (lbrace_counter = 1, buffer_pntr = buffer; lbrace_counter;)`
unfoldable pub read_argument :
    ℕ
    → (use_ascii : Bool) → List ParameterList
    → (braces : ℕ) → (buf : List ℕ) → Scanner
    → Outcome (List ℕ × Scanner)
unfolding get_char argument_char
read_argument zero a parameters braces buf s = out_of_fuel
read_argument (suc f) a parameters braces buf s =
    let (c, t) = get_char a s in
    argument_char (λ n b u. read_argument f a parameters n b u) f a parameters braces buf c t

-- The text as it is copied by strcpy, from a buffer of 4096 characters.
unfoldable pub up_to_nul : List ℕ → List ℕ
up_to_nul [] = []
up_to_nul (c ∷ cs) = if c == 0 then [] else c ∷ up_to_nul cs

unfoldable pub copy_argument : List ℕ × Scanner → Outcome (List ℕ × Scanner)
unfolding up_to_nul
copy_argument (w, s) = if leb 4096 (length w) then fault else ok (up_to_nul w, s)

abbrev pub is_lbrace : TokenType → Bool
is_lbrace eof = false
is_lbrace (kind k) = k == lbrace_token

unfoldable pub read_arguments :
    ℕ → Tables → List ParameterList → (count : ℕ) → Scanner → Outcome (ParameterList × Scanner)
unfolding get_token read_argument copy_argument
read_arguments f e parameters zero s = ok ([], s)
read_arguments f e parameters (suc n) s = get_token f e s >>= λ t.
    let one = read_argument f e.use_ascii parameters 1 [] t >>= copy_argument in
    if is_lbrace t.token.type
    then (one >>= λ (w, u). read_arguments f e parameters n u >>= λ (ws, v). ok (w ∷ ws, v))
    else jumped

unfoldable pub get_parameter_strings :
    ℕ
    → Tables
    → (number : ℕ) → List ParameterList
    → Scanner
    → Outcome (List ParameterList × Scanner)
unfolding read_arguments push_parameters
get_parameter_strings f e number parameters s =
    read_arguments f e parameters number s >>= λ (parms, t).
    ok (push_parameters parms parameters, t)
