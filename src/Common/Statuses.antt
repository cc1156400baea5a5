-- ===== src/Common/Statuses.antt =====
-- core/orchestra_thread/common.py: a status is read in any case and with white space around it.
use orchestra_threads.Prelude.{
  ℕ, ◌+◌, ◌≡◌, refl, ap, ◌∙◌, Bool, true, false, ◌&&◌, some, [], ◌∷◌, ◌++◌, arith, leb, inl, inr,
  Bool-cases, All, if◌then◌else◌,
}
use orchestra_threads.Text.{Text, ◌==◌, lit, strip, lower, is_space, lstrip_by, rstrip_by, is_empty}
use orchestra_threads.Common.{
  Status, opened, in_progress, review, done, closed, status_text, parse_status, normalize_status,
}

-- White space only.
abbrev pub IsBlank : Text → Type 0
IsBlank = All (λ c. is_space c ≡ true)

abbrev lower_char : ℕ → ℕ
lower_char c = if leb b'A' c && leb c b'Z' then c + 32 else c

is_space-lower_char : (c : ℕ) → is_space (lower_char c) ≡ is_space c
unfolding is_space
is_space-lower_char c = ground arith

lower-append : (s t : Text) → lower (s ++ t) ≡ lower s ++ lower t
unfolding lower
lower-append [] t = refl
lower-append (c ∷ s) t = ap (λ r. lower_char c ∷ r) (lower-append s t)

lower-IsBlank : (s : Text) → IsBlank s → IsBlank (lower s)
unfolding lower
lower-IsBlank [] h = tt
lower-IsBlank (c ∷ s) h = (is_space-lower_char c ∙ h.0, lower-IsBlank s h.1)

lower-lstrip : (s : Text) → lower (lstrip_by is_space s) ≡ lstrip_by is_space (lower s)
unfolding lower lstrip_by
lower-lstrip [] = refl
lower-lstrip (c ∷ s) = elim (Bool-cases (is_space c)) [
  | inl e ↦ rw (e, is_space-lower_char c, e) (lower-lstrip s)
  | inr e ↦ rw (e, is_space-lower_char c, e) refl
]

is_empty-lower : (s : Text) → is_empty (lower s) ≡ is_empty s
unfolding lower
is_empty-lower [] = refl
is_empty-lower (c ∷ s) = refl

lower_nil : lower [] ≡ []
unfolding lower
lower_nil = refl

lower_cons : (c : ℕ) (s : Text) → lower (c ∷ s) ≡ lower_char c ∷ lower s
unfolding lower
lower_cons c s = refl

lower_kept :
    (c : ℕ) (r : Text)
    → lower (if is_space c && is_empty r then [] else c ∷ r)
      ≡ (if is_space (lower_char c) && is_empty (lower r) then [] else lower_char c ∷ lower r)
lower_kept c r = rw (is_space-lower_char c, is_empty-lower r) (by_test (is_space c && is_empty r))
  where
    by_test :
        (b : Bool) → lower (if b then [] else c ∷ r) ≡ (if b then [] else lower_char c ∷ lower r)
    by_test true = lower_nil
    by_test false = lower_cons c r

lower-rstrip : (s : Text) → lower (rstrip_by is_space s) ≡ rstrip_by is_space (lower s)
unfolding lower rstrip_by
lower-rstrip [] = refl
lower-rstrip (c ∷ s) =
    lower_kept c (rstrip_by is_space s)
    ∙ ap (λ r. if is_space (lower_char c) && is_empty r then [] else lower_char c ∷ r)
        (lower-rstrip s)

lstrip_blank : (pre s : Text) → IsBlank pre → lstrip_by is_space (pre ++ s) ≡ lstrip_by is_space s
unfolding lstrip_by
lstrip_blank [] s h = refl
lstrip_blank (c ∷ pre) s h = rw (h.0, lstrip_by) (lstrip_blank pre s h.1)

all_blank : (post : Text) → IsBlank post → rstrip_by is_space post ≡ []
unfolding rstrip_by
all_blank [] h = refl
all_blank (c ∷ post) h = rw (h.0, all_blank post h.1) refl

rstrip_blank :
    (s post : Text) → IsBlank post → rstrip_by is_space (s ++ post) ≡ rstrip_by is_space s
unfolding rstrip_by
rstrip_blank [] post h = all_blank post h
rstrip_blank (c ∷ s) post h = rw (rstrip_blank s post h) refl

normalize-strip : (s : Text) → normalize_status s ≡ strip (lower s)
unfolding normalize_status strip
normalize-strip s = lower-rstrip (lstrip_by is_space s) ∙ ap (rstrip_by is_space) (lower-lstrip s)

-- The text of a status has no white space at its ends.
status_text-strip :
    (s : Status) (post : Text)
    → IsBlank post
    → rstrip_by is_space (lstrip_by is_space (status_text s ++ post)) ≡ status_text s
unfolding status_text is_space lit lstrip_by rstrip_by
status_text-strip opened post k = rstrip_blank (lit "open") post k
status_text-strip in_progress post k = rstrip_blank (lit "in_progress") post k
status_text-strip review post k = rstrip_blank (lit "review") post k
status_text-strip done post k = rstrip_blank (lit "done") post k
status_text-strip closed post k = rstrip_blank (lit "closed") post k

stripped :
    (s : Status) (pre post : Text)
    → IsBlank pre
    → IsBlank post
    → strip (pre ++ (status_text s ++ post)) ≡ status_text s
unfolding strip
stripped s pre post h k =
    ap (rstrip_by is_space) (lstrip_blank pre (status_text s ++ post) h)
    ∙ status_text-strip s post k

parse-status_text : (s : Status) → parse_status (status_text s) ≡ some s
unfolding parse_status status_text lit ◌==◌
parse-status_text opened = refl
parse-status_text in_progress = refl
parse-status_text review = refl
parse-status_text done = refl
parse-status_text closed = refl

-- A status is read from its text in any case of its letters and with any white space around it.
pub parse-normalize :
    (s : Status) (pre t post : Text)
    → IsBlank pre
    → lower t ≡ status_text s
    → IsBlank post
    → parse_status (normalize_status (pre ++ (t ++ post))) ≡ some s
parse-normalize s pre t post h e k =
    ap parse_status (
      normalize-strip (pre ++ (t ++ post))
      ∙ ap strip (
          lower-append pre (t ++ post)
          ∙ ap (λ r. lower pre ++ r) (lower-append t post ∙ ap (λ r. r ++ lower post) e))
      ∙ stripped s (lower pre) (lower post) (lower-IsBlank pre h) (lower-IsBlank post k))
    ∙ parse-status_text s
