-- ===== src/Jobs/Redact.antt =====
-- `boundedText` of ui-manager/app/lib/job-manager.js: the text that a job may show, with the
-- credentials that the three patterns recognise replaced, on one line, trimmed and cut.
use mathlib.Core.List.{reverse}
use hosting_control_panel.Common.{
  is_space, lower, ℕ, zero, suc, ◌≤◌, Bool, false, not, ◌&&◌, ◌||◌, Option, none, some, List, [],
  ◌∷◌, ◌++◌, leb, ◌==◌, if◌then◌else◌, length, take, length-take, Text, text,
}

abbrev is_alnum : ℕ → Bool
is_alnum c = (leb 48 c && leb c 57) || (leb 65 c && leb c 90) || (leb 97 c && leb c 122)

-- `\w`
abbrev is_word : ℕ → Bool
is_word c = is_alnum c || (c == b'_')

-- `[A-Za-z0-9._~+/=-]`
abbrev is_bearer : ℕ → Bool
is_bearer c =
    is_alnum c
    || (c == b'.')
    || (c == b'_')
    || (c == b'~')
    || (c == b'+')
    || (c == b'/')
    || (c == b'=')
    || (c == b'-')

-- `[^\s,;]`
abbrev is_value : ℕ → Bool
is_value c = not (is_space c || (c == b',') || (c == b';'))

abbrev is_quote : ℕ → Bool
is_quote c = (c == 39) || (c == 34)

-- What follows the longest run of the class.
skip : (ℕ → Bool) → Text → Text
skip p [] = []
skip p (c ∷ cs) = let rest = skip p cs in if p c then rest else c ∷ cs

-- What follows a run of the class that is not empty.
some_of : (ℕ → Bool) → Text → Option Text
unfolding skip
some_of p [] = none
some_of p (c ∷ cs) = if p c then some (skip p cs) else none

-- What follows a literal, compared as the flag `i` does. The literal is in lower case.
unfoldable pub literal : Text → Text → Option Text
literal [] s = some s
literal (p ∷ ps) [] = none
literal (p ∷ ps) (c ∷ cs) = let rest = literal ps cs in if lower c == p then rest else none

infixl 5 ◌>>=◌
abbrev ◌>>=◌ {ℓ κ} : {A : Type ℓ} {B : Type κ} → Option A → (A → Option B) → Option B
none >>= f = none
some a >>= f = f a

-- A match at the head of a text: what replaces it, and what follows.
abbrev Matcher : Type 0
Matcher = Text → Option (Text × Text)

-- `Bearer\s+[A-Za-z0-9._~+/=-]+`
match_bearer : Matcher
unfolding literal some_of text
match_bearer s = do
  after_name ← literal (text "bearer") s
  after_space ← some_of is_space after_name
  rest ← some_of is_bearer after_space
  some (text "Bearer [redacted]", rest)

assignment_names : List Text
unfolding text
assignment_names =
    text "password"
    ∷ text "passwd"
    ∷ text "dbpass"
    ∷ text "admin_password"
    ∷ text "user_pass"
    ∷ text "userpass"
    ∷ text "secret"
    ∷ text "token"
    ∷ text "authorization"
    ∷ text "cookie"
    ∷ []

-- `name\s*[:=]\s*[^\s,;]+`, replaced by `$1=[redacted]`
match_assignment : Text → Matcher
unfolding literal some_of skip text
match_assignment name s = do
  after_name ← literal name s
  after_sign ← sign (skip is_space after_name)
  rest ← some_of is_value (skip is_space after_sign)
  some (take (length name) s ++ text "=[redacted]", rest)
  where
    sign : Text → Option Text
    sign [] = none
    sign (c ∷ cs) = if (c == b':') || (c == b'=') then some cs else none

match_any_assignment : List Text → Matcher
unfolding match_assignment
match_any_assignment [] s = none
match_any_assignment (name ∷ names) s =
    let later = match_any_assignment names s in
    elim (match_assignment name s) [ none ↦ later | some m ↦ some m ]

-- `IDENTIFIED\s+BY\s+(['"])[^'"]+\1`
match_identified : Matcher
unfolding literal some_of text
match_identified s = do
  after_identified ← literal (text "identified") s
  after_space ← some_of is_space after_identified
  after_by ← literal (text "by") after_space
  opening ← some_of is_space after_by
  quoted opening
  where
    closed : ℕ → Text → Option (Text × Text)
    closed q [] = none
    closed q (c ∷ cs) = if c == q then some (text "IDENTIFIED BY '[redacted]'", cs) else none

    quoted : Text → Option (Text × Text)
    quoted [] = none
    quoted (q ∷ qs) = if is_quote q then (some_of (λ c. not (is_quote c)) qs >>= closed q) else none

-- `s.replace(/\b…/gi, …)`: every match takes at least one code unit, so the length is fuel enough.
replace_all : Matcher → ℕ → Bool → Text → Text
replace_all m zero after_word s = s
replace_all m (suc n) after_word [] = []
replace_all m (suc n) after_word (c ∷ cs) =
    let kept = c ∷ replace_all m n (is_word c) cs in
    elim (if after_word then none else m (c ∷ cs)) [
      | none ↦ kept
      | some (replacement, rest) ↦ replacement ++ replace_all m n false rest
    ]

-- `.replace(/[\r\n\t]+/g, " ")`
collapse : Bool → Text → Text
collapse in_run [] = []
collapse in_run (c ∷ cs) =
    let breaks = (c == 13) || (c == 10) || (c == 9) in
    let rest = collapse breaks cs in
    if breaks then (if in_run then rest else 32 ∷ rest) else c ∷ rest

-- `.trim()`
trim : Text → Text
unfolding skip
trim s = reverse (skip is_space (reverse (skip is_space s)))

replace : Matcher → Text → Text
unfolding replace_all
replace m s = replace_all m (length s) false s

-- `boundedText(value, maximum)`
unfoldable pub bounded_text : Text → ℕ → Text
unfolding match_bearer match_any_assignment assignment_names match_identified replace collapse trim
bounded_text value maximum =
    let once = replace match_bearer value in
    let twice = replace (match_any_assignment assignment_names) once in
    let redacted = replace match_identified twice in take maximum (trim (collapse false redacted))

-- No text that a job shows is longer than its limit.
pub bounded_text-le : (value : Text) (maximum : ℕ) → length (bounded_text value maximum) ≤ maximum
unfolding bounded_text
bounded_text-le value maximum = length-take maximum _
