-- ===== src/ProcessOps/Arguments.antt =====
-- ProcessOps.cpp: the arguments that reach a child process are those that its caller quoted.
use iacore.Base.{
  ℕ, ◌≡◌, refl, sym, ap, ◌∙◌, Bool, true, false, ◌||◌, not, List, [], ◌∷◌, ◌++◌, append_assoc,
  append-nil, map, Bytes, unless_empty, All, Lacks, c_str, c_str-Lacks, ◌==◌, if◌then◌else◌, arith,
}
use iacore.ProcessOps.Redirect.{argv}
use iacore.ProcessOps.{is_empty, Splitter, split_char, split_loop, last_token, split_arguments}

-- How a caller writes an argument: in quotation marks, with a backslash before a mark and before a backslash.
quote_char : ℕ → Bytes
quote_char c = if c == b'"' || c == b'\\' then b'\\' ∷ c ∷ [] else c ∷ []

quote_chars : Bytes → Bytes
quote_chars [] = []
quote_chars (c ∷ s) = quote_char c ++ quote_chars s

pub quote : Bytes → Bytes
unfolding quote_chars quote_char
quote arg = b'"' ∷ quote_chars arg ++ b'"' ∷ []

-- Quoted arguments with a blank between two of them.
pub command_line : List Bytes → Bytes
unfolding quote
command_line [] = []
command_line (arg ∷ []) = quote arg
command_line (arg ∷ next ∷ args) = quote arg ++ b' ' ∷ command_line (next ∷ args)

unfoldable pub non_empty : List Bytes → List Bytes
non_empty [] = []
non_empty (arg ∷ args) = unless_empty arg ++ non_empty args

state : List Bytes → Bytes → Bool → Splitter
state storage token quoted = record {
  arg_storage = storage;
  current_token = token;
  in_quotes = quoted;
  is_escaped = false;
}

split_loop-append :
    (s t : Bytes) (z : Splitter) → split_loop (s ++ t) z ≡ split_loop t (split_loop s z)
unfolding split_loop
split_loop-append [] t z = refl
split_loop-append (c ∷ s) t z = split_loop-append s t (split_char c z)

split_loop-cons :
    (c : ℕ) (s : Bytes) (z : Splitter) → split_loop (c ∷ s) z ≡ split_loop s (split_char c z)
unfolding split_loop
split_loop-cons c s z = refl

split_loop-one : (c : ℕ) (z : Splitter) → split_loop (c ∷ []) z ≡ split_char c z
unfolding split_loop
split_loop-one c z = refl

split_loop-quote_char :
    (c : ℕ) (storage : List Bytes) (token : Bytes)
    → split_loop (quote_char c) (state storage token true) ≡ state storage (token ++ c ∷ []) true
unfolding split_loop split_char quote_char state
split_loop-quote_char c storage token = ground arith

split_loop-quote_chars :
    (s : Bytes) (storage : List Bytes) (token : Bytes)
    → split_loop (quote_chars s) (state storage token true) ≡ state storage (token ++ s) true
unfolding quote_chars
split_loop-quote_chars [] storage token =
    unfold split_loop in ap (λ t. state storage t true) (sym (append-nil token))
split_loop-quote_chars (c ∷ s) storage token =
    split_loop-append (quote_char c) (quote_chars s) (state storage token true)
    ∙ ap (split_loop (quote_chars s)) (split_loop-quote_char c storage token)
    ∙ split_loop-quote_chars s storage (token ++ c ∷ [])
    ∙ ap (λ t. state storage t true) (append_assoc token (c ∷ []) s)

-- A quotation mark opens a quoted part or closes it.
split_char-mark :
    (storage : List Bytes) (token : Bytes) (quoted : Bool)
    → split_char b'"' (state storage token quoted) ≡ state storage token (not quoted)
unfolding split_char state
split_char-mark storage token quoted = refl

split_loop-quote :
    (arg : Bytes) (storage : List Bytes)
    → split_loop (quote arg) (state storage [] false) ≡ state storage arg false
unfolding quote
split_loop-quote arg storage =
    split_loop-cons b'"' (quote_chars arg ++ b'"' ∷ []) (state storage [] false)
    ∙ ap (split_loop (quote_chars arg ++ b'"' ∷ [])) (split_char-mark storage [] false)
    ∙ split_loop-append (quote_chars arg) (b'"' ∷ []) (state storage [] true)
    ∙ ap (split_loop (b'"' ∷ [])) (split_loop-quote_chars arg storage [])
    ∙ split_loop-one b'"' (state storage arg true)
    ∙ split_char-mark storage arg true

split_char-blank :
    (storage : List Bytes) (token : Bytes)
    → split_char b' ' (state storage token false) ≡ state (storage ++ unless_empty token) [] false
unfolding split_char state is_empty
split_char-blank storage [] = ap (λ t. state t [] false) (sym (append-nil storage))
split_char-blank storage (c ∷ token) = refl

last_token-state :
    (storage : List Bytes) (token : Bytes)
    → last_token (state storage token false) ≡ storage ++ unless_empty token
unfolding last_token state is_empty
last_token-state storage [] = sym (append-nil storage)
last_token-state storage (c ∷ token) = refl

split_command_line :
    (args : List Bytes) (storage : List Bytes)
    → last_token (split_loop (command_line args) (state storage [] false))
      ≡ storage ++ non_empty args
unfolding command_line non_empty
split_command_line [] storage = unfold split_loop in last_token-state storage []
split_command_line (arg ∷ []) storage =
    ap last_token (split_loop-quote arg storage)
    ∙ last_token-state storage arg
    ∙ ap (λ t. storage ++ t) (sym (append-nil (unless_empty arg)))
split_command_line (arg ∷ next ∷ args) storage =
    ap last_token (
      split_loop-append (quote arg) (b' ' ∷ command_line (next ∷ args)) (state storage [] false)
      ∙ ap (split_loop (b' ' ∷ command_line (next ∷ args))) (split_loop-quote arg storage)
      ∙ split_loop-cons b' ' (command_line (next ∷ args)) (state storage arg false)
      ∙ ap (split_loop (command_line (next ∷ args))) (split_char-blank storage arg))
    ∙ split_command_line (next ∷ args) (storage ++ unless_empty arg)
    ∙ append_assoc storage (unless_empty arg) (non_empty (next ∷ args))

pub split_arguments-command_line :
    (args : List Bytes) → split_arguments (command_line args) ≡ non_empty args
unfolding split_arguments state
split_arguments-command_line args = split_command_line args []

c_strings : (args : List Bytes) → All (Lacks 0) args → map c_str (non_empty args) ≡ non_empty args
unfolding non_empty
c_strings [] h = refl
c_strings ([] ∷ args) h = c_strings args h.1
c_strings ((c ∷ arg) ∷ args) h = λ i. c_str-Lacks (c ∷ arg) h.0 i ∷ c_strings args h.1 i

-- Arguments that their caller has quoted and put behind one another with blanks reach the child, behind the command,
-- unchanged and in order, whatever characters but zero bytes they hold; only those that are empty are lost. The command
-- holds no zero byte.
pub argv-command_line :
    (command : Bytes) (args : List Bytes)
    → Lacks 0 command
    → All (Lacks 0) args
    → argv command (command_line args) ≡ command ∷ non_empty args
unfolding argv
argv-command_line command args h k =
    ap (λ t. map c_str (command ∷ t)) (split_arguments-command_line args) ∙ λ i.
    c_str-Lacks command h i ∷ c_strings args k i

quote_chars-plain : (s : Bytes) → Lacks b'"' s → Lacks b'\\' s → quote_chars s ≡ s
unfolding quote_chars quote_char
quote_chars-plain [] h k = refl
quote_chars-plain (c ∷ s) h k = ground (arith, quote_chars-plain s h.1 k.1, h.0, k.0)

-- A text without quotation marks and backslashes is quoted by two marks.
pub command_line-plain :
    (s : Bytes) → Lacks b'"' s → Lacks b'\\' s → b'"' ∷ s ++ b'"' ∷ [] ≡ command_line (s ∷ [])
unfolding command_line quote
command_line-plain s h k = ap (λ t. b'"' ∷ t ++ b'"' ∷ []) (sym (quote_chars-plain s h k))
