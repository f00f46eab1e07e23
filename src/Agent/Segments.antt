-- ===== src/Agent/Segments.antt =====
-- The website paths of control-agent/app/policy.js by their segments.
use hosting_control_panel.Common.{
  ℕ, ◌≡◌, ◌≢◌, refl, sym, ap, ◌∙◌, Bool, true, false, not, ◌&&◌, ◌||◌, List, [], ◌∷◌, ◌++◌, length,
  any, leb, ◌==◌, ◌-◌, Bool-cases, inl, inr, suc, text_eq_sound, Text, after_prefix, text, text_eq,
  starts_with, split, arith,
}
use hosting_control_panel.Agent.Words.{prefixed, bounded_text, contains, ends_with}
use hosting_control_panel.Agent.Paths.{safe_site_path, valid_site_path}

abbrev first_of : List Text → Text
first_of [] = []
first_of (p ∷ ps) = p

abbrev rest_of : List Text → List Text
rest_of [] = []
rest_of (p ∷ ps) = ps

split-parts : (sep : ℕ) (s : Text) → split sep s ≡ first_of (split sep s) ∷ rest_of (split sep s)
unfolding split
split-parts sep [] = refl
split-parts sep (c ∷ cs) = elim (Bool-cases (c == sep)) [
  | inl e ↦ rw e refl
  | inr e ↦ rw (e, split-parts sep cs) refl
]

split-sep : (sep c : ℕ) (cs : Text) → (c == sep) ≡ true → split sep (c ∷ cs) ≡ [] ∷ split sep cs
unfolding split
split-sep sep c cs e = rw e refl

split-other :
    (sep c : ℕ) (cs : Text)
    → (c == sep) ≡ false
    → split sep (c ∷ cs) ≡ (c ∷ first_of (split sep cs)) ∷ rest_of (split sep cs)
unfolding split
split-other sep c cs e = rw (e, split-parts sep cs) refl

-- The first part is a text without a separator where the whole is, or goes on with a separator.
first_of-split :
    (sep : ℕ) (s t : Text)
    → any (λ d. d == sep) t ≡ false
    → text_eq (first_of (split sep s)) t ≡ text_eq s t || starts_with s (t ++ sep ∷ [])
unfolding text_eq starts_with split any
first_of-split sep [] [] clean = refl
first_of-split sep [] (d ∷ ds) clean = refl
first_of-split sep (c ∷ cs) [] clean = elim (Bool-cases (c == sep)) [
  | inl e ↦ rw (split-sep sep c cs e, e) refl
  | inr e ↦ rw (split-other sep c cs e, e) refl
]
first_of-split sep (c ∷ cs) (d ∷ ds) clean = elim (Bool-cases (c == sep)) [
  | inl e ↦
      let differs : (c == d) ≡ false = ground (arith, e, clean) in
      rw (split-sep sep c cs e, differs) refl
  | inr e ↦
      let rest = first_of-split sep cs ds (ground (arith, clean)) in
      rw (split-other sep c cs e, rest)
        (elim (Bool-cases (c == d)) [ inl h ↦ rw h refl | inr h ↦ rw h refl ])
]

text_eq-length : (a b : Text) → text_eq a b ≡ true → length a ≡ length b
text_eq-length a b e = ap length (text_eq_sound a b e)

longer-text_eq : (a b : Text) → length a ≢ length b → text_eq a b ≡ false
longer-text_eq a b n = elim (Bool-cases (text_eq a b)) [
  | inl e ↦ absurd (n (text_eq-length a b e))
  | inr e ↦ e
]

short-ends_with :
    (s suffix : Text) → leb (length suffix) (length s) ≡ false → ends_with s suffix ≡ false
unfolding ends_with
short-ends_with s suffix e = rw e refl

longer-ends_with :
    (c : ℕ) (cs suffix : Text)
    → leb (length suffix) (length cs) ≡ true
    → ends_with (c ∷ cs) suffix ≡ ends_with cs suffix
unfolding ends_with
longer-ends_with c cs suffix e =
    let one_more : length (c ∷ cs) - length suffix ≡ suc (length cs - length suffix) =
      ground (arith, e) in
    let fits : leb (length suffix) (length (c ∷ cs)) ≡ true = ground (arith, e) in
    rw (one_more, fits, e) refl

exact-ends_with :
    (s suffix : Text) → length s ≡ length suffix → ends_with s suffix ≡ text_eq s suffix
unfolding ends_with
exact-ends_with s suffix e =
    let nothing : length s - length suffix ≡ 0 = ground (arith, e) in
    let fits : leb (length suffix) (length s) ≡ true = ground (arith, e) in rw (nothing, fits) refl

or_false : (b : Bool) → (b || false) ≡ b
or_false true = refl
or_false false = refl

ends_with-cons :
    (c : ℕ) (cs suffix : Text)
    → ends_with (c ∷ cs) suffix ≡ ends_with cs suffix || text_eq (c ∷ cs) suffix
ends_with-cons c cs suffix = elim (Bool-cases (leb (length suffix) (length cs))) [
  | inl e ↦
      let apart : text_eq (c ∷ cs) suffix ≡ false =
        longer-text_eq (c ∷ cs) suffix (λ same. ground (arith, e, same)) in
      rw apart (longer-ends_with c cs suffix e ∙ sym (or_false (ends_with cs suffix)))
  | inr e ↦
      rw (short-ends_with cs suffix e) (elim (Bool-cases (leb (length suffix) (length (c ∷ cs)))) [
        | inl just ↦ exact-ends_with (c ∷ cs) suffix (ground (arith, e, just))
        | inr none_left ↦
            let apart : text_eq (c ∷ cs) suffix ≡ false =
              longer-text_eq (c ∷ cs) suffix (λ same. ground (arith, none_left, same)) in
            rw apart (short-ends_with (c ∷ cs) suffix none_left)
      ])
]

-- A `..` after a slash, as the code looks for it.
abbrev climbs : Text → Bool
climbs s = contains (text "/../") s || ends_with s (text "/..")

shuffle : (s t c e : Bool) → ((s || c) || (e || t)) ≡ ((t || s) || (c || e))
shuffle true true c e = refl
shuffle true false c e = refl
shuffle false true true e = refl
shuffle false true false true = refl
shuffle false true false false = refl
shuffle false false c e = ap (λ b. c || b) (or_false e)

abbrev pub is_dots : Text → Bool
is_dots s = text_eq s (text "..")

climbs-slash :
    (c : ℕ) (cs : Text)
    → (c == b'/') ≡ true
    → climbs (c ∷ cs) ≡ is_dots (first_of (split b'/' cs)) || climbs cs
unfolding contains starts_with text_eq text any
climbs-slash c cs e =
    rw (ends_with-cons c cs (text "/.."), first_of-split b'/' cs (text "..") refl, e)
      (shuffle (starts_with cs (text "../")) (text_eq cs (text "..")) (contains (text "/../") cs)
        (ends_with cs (text "/..")))

climbs-other : (c : ℕ) (cs : Text) → (c == b'/') ≡ false → climbs (c ∷ cs) ≡ climbs cs
unfolding contains starts_with text_eq text any
climbs-other c cs e =
    rw (ends_with-cons c cs (text "/.."), e)
      (ap (λ b. contains (text "/../") cs || b) (or_false (ends_with cs (text "/.."))))

climbs-segments : (s : Text) → climbs s ≡ any is_dots (rest_of (split b'/' s))
unfolding any split contains ends_with text text_eq
climbs-segments [] = refl
climbs-segments (c ∷ cs) =
    let rest = climbs-segments cs in
    elim (Bool-cases (c == b'/')) [
      | inl e ↦
          climbs-slash c cs e
          ∙ ap (λ b. is_dots (first_of (split b'/' cs)) || b) rest
          ∙ ap (any is_dots) (sym (split-parts b'/' cs))
          ∙ ap (λ ps. any is_dots (rest_of ps)) (sym (split-sep b'/' c cs e))
      | inr e ↦
          climbs-other c cs e
          ∙ rest
          ∙ ap (λ ps. any is_dots (rest_of ps)) (sym (split-other b'/' c cs e))
    ]

-- The paths that are meant: below `/var/www/`, with no segment that leads upwards.
abbrev pub site_path_reference : Text → Bool
site_path_reference path =
    bounded_text 1024 path && safe_site_path path && not (any is_dots (split b'/' path))

slash_first : (c : ℕ) (cs : Text) → (c == b'/') ≡ false → safe_site_path (c ∷ cs) ≡ false
unfolding safe_site_path prefixed after_prefix text
slash_first c cs e = rw (safe_site_path, prefixed, after_prefix, e) refl

-- After a slash the first segment is empty.
dots_after_slash :
    (c : ℕ) (cs : Text) → (c == b'/') ≡ true → any is_dots (split b'/' (c ∷ cs)) ≡ climbs (c ∷ cs)
unfolding any text_eq text
dots_after_slash c cs e = rw (split-sep b'/' c cs e) (
    ap (λ ps. any is_dots (rest_of ps)) (sym (split-sep b'/' c cs e))
    ∙ sym (climbs-segments (c ∷ cs)))

regroup : (a b c d : Bool) → (a && b && not c && not d) ≡ (a && b && not (c || d))
regroup true true true d = refl
regroup true true false d = refl
regroup true false c d = refl
regroup false b c d = refl

unsafe_refused : (a s b c d : Bool) → s ≡ false → (a && s && b && c) ≡ (a && s && d)
unsafe_refused true s b c d e = rw e refl
unsafe_refused false s b c d e = refl

-- The code's two searches for `/../` and `/..` accept exactly the paths below /var/www/ that have the
-- permitted characters and length and no segment `..`.
pub valid_site_path-segments : (path : Text) → valid_site_path path ≡ site_path_reference path
unfolding valid_site_path
valid_site_path-segments [] = refl
valid_site_path-segments (c ∷ cs) = elim (Bool-cases (c == b'/')) [
  | inl e ↦
      regroup (bounded_text 1024 (c ∷ cs)) (safe_site_path (c ∷ cs))
        (contains (text "/../") (c ∷ cs)) (ends_with (c ∷ cs) (text "/.."))
      ∙ ap (λ b. bounded_text 1024 (c ∷ cs) && safe_site_path (c ∷ cs) && not b)
          (sym (dots_after_slash c cs e))
  | inr e ↦
      unsafe_refused (bounded_text 1024 (c ∷ cs)) (safe_site_path (c ∷ cs))
        (not (contains (text "/../") (c ∷ cs))) (not (ends_with (c ∷ cs) (text "/..")))
        (not (any is_dots (split b'/' (c ∷ cs)))) (slash_first c cs e)
]
