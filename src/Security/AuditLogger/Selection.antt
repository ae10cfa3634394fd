-- ===== src/Security/AuditLogger/Selection.antt =====
-- Which entries `get_recent_entries` returns.
use Prim.Native.Char.{Char}
use log_librarian.Prelude.{
  ℕ, zero, suc, ◌-◌, ◌<◌, ◌≤◌, ◌≡◌, refl, ap, sym, ◌∙◌, String, Bool, true, false, ◌&&◌, ◌||◌,
  Option, none, some, List, [], ◌∷◌, ◌++◌, arith, length, drop, keep_if, str_eq, Bool-cases, inl,
  inr, if◌then◌else◌, eq_iff, length-append, keep_if-append,
}
use mathlib.Core.List.{reverse, reverse-cons, reverse-reverse, append-nil}
use mathlib.Core.Path.{subst}
use log_librarian.Security.AuditLogger.{
  AuditEntry, AuditLogger, is_user, of_type, of_user, get_recent_entries,
}
use log_librarian.Security.AuditLogger.Retention.{last_of-pos}

-- The first `n` of the elements that pass a test.
unfoldable pub first_wanted : {A : Type 0} → ℕ → (A → Bool) → List A → List A
first_wanted zero p xs = []
first_wanted (suc n) p [] = []
first_wanted (suc n) p (x ∷ xs) =
    let here = first_wanted n p xs in
    let later = first_wanted (suc n) p xs in if p x then x ∷ here else later

-- What a filter wants: any value where it is absent or empty, else a value that is equal to it.
unfoldable pub is_wanted : Option String → Option String → Bool
is_wanted none value = true
is_wanted (some w) none = str_eq w ""
is_wanted (some w) (some value) = str_eq w "" || str_eq value w

module _ {A : Type 0} where
  drop-length : (xs : List A) → drop (length xs) xs ≡ []
  drop-length [] = refl
  drop-length (x ∷ xs) = drop-length xs

  drop-snoc :
      (n : ℕ) (xs : List A) (x : A) → n ≤ length xs → drop n (xs ++ x ∷ []) ≡ drop n xs ++ x ∷ []
  drop-snoc zero xs x h = refl
  drop-snoc (suc n) [] x h = absurd (omega arith)
  drop-snoc (suc n) (y ∷ xs) x h = drop-snoc n xs x (omega arith)

  keep_if-reverse-cons :
      (p : A → Bool) (y : A) (ys : List A)
      → keep_if p (reverse (y ∷ ys)) ≡ keep_if p (reverse ys) ++ keep_if p (y ∷ [])
  keep_if-reverse-cons p y ys =
      ap (keep_if p) (reverse-cons y ys) ∙ keep_if-append p (reverse ys) (y ∷ [])

  last_few : ℕ → List A → List A
  last_few n xs = drop (length xs - n) xs

  last_few-snoc :
      (n : ℕ) (xs : List A) (x : A) → last_few (suc n) (xs ++ x ∷ []) ≡ last_few n xs ++ x ∷ []
  unfolding last_few
  last_few-snoc n xs x =
      let e : length (xs ++ x ∷ []) - suc n ≡ length xs - n =
        omega (arith, length-append xs (x ∷ [])) in
      ap (λ k. drop k (xs ++ x ∷ [])) e ∙ drop-snoc (length xs - n) xs x (omega arith)

  last_few-zero : (xs : List A) → last_few 0 xs ≡ []
  unfolding last_few
  last_few-zero xs =
      let e : length xs - 0 ≡ length xs = omega arith in ap (λ k. drop k xs) e ∙ drop-length xs

  last_few-nil : (n : ℕ) → last_few n [] ≡ []
  unfolding last_few
  last_few-nil n = let e : 0 - n ≡ 0 = omega arith in ap (λ k. drop k []) e

  -- A scan of the reversed list ends with its last elements that pass.
  reverse-first_wanted :
      (n : ℕ) (p : A → Bool) (ys : List A)
      → reverse (first_wanted n p ys) ≡ last_few n (keep_if p (reverse ys))
  unfolding first_wanted
  reverse-first_wanted zero p ys = sym (last_few-zero (keep_if p (reverse ys)))
  reverse-first_wanted (suc n) p [] = sym (last_few-nil (suc n))
  reverse-first_wanted (suc n) p (y ∷ ys) =
      let kept = keep_if p (reverse ys) in
      let e = keep_if-reverse-cons p y ys in
      elim (Bool-cases (p y)) [
        | inl wanted ↦
            let e' : keep_if p (reverse (y ∷ ys)) ≡ kept ++ y ∷ [] = e ∙ rw wanted refl in
            rw (wanted, e')
              (reverse-cons y (first_wanted n p ys)
                ∙ ap (λ r. r ++ y ∷ []) (reverse-first_wanted n p ys)
                ∙ sym (last_few-snoc n kept y))
        | inr other ↦
            let e' : keep_if p (reverse (y ∷ ys)) ≡ kept = e ∙ rw other (append-nil kept) in
            rw (other, e') (reverse-first_wanted (suc n) p ys)
      ]

abbrev IsEmpty : String → Type 0
IsEmpty String.[] = Unit
IsEmpty (String.◌∷◌ c t) = ⊥

cons-not-empty : (c : Char) (t : String) → str_eq (String.◌∷◌ c t) "" ≡ false
cons-not-empty c t = elim (Bool-cases (str_eq (String.◌∷◌ c t) "")) [
  | inl e ↦ absurd (subst IsEmpty (sym ((eq_iff (String.◌∷◌ c t) "").0 e)) tt)
  | inr e ↦ e
]

empty-is_wanted : (value : Option String) → is_wanted (some "") value ≡ true
unfolding is_wanted
empty-is_wanted none = refl
empty-is_wanted (some value) = refl

is_user-is_wanted :
    (value : Option String) (c : Char) (t : String)
    → is_user value (String.◌∷◌ c t) ≡ is_wanted (some (String.◌∷◌ c t)) value
unfolding is_wanted
is_user-is_wanted none c t = sym (cons-not-empty c t)
is_user-is_wanted (some value) c t = rw (cons-not-empty c t) refl

module _ {D : Type 0} where
  keep_if-same :
      (p q : AuditEntry D → Bool) (es : List (AuditEntry D))
      → ((e : AuditEntry D) → p e ≡ q e)
      → keep_if p es ≡ keep_if q es
  keep_if-same p q [] h = refl
  keep_if-same p q (e ∷ es) h = rw (h e, keep_if-same p q es h) refl

  keep_all : (es : List (AuditEntry D)) → keep_if (λ e. true) es ≡ es
  keep_all [] = refl
  keep_all (e ∷ es) = ap (λ r. e ∷ r) (keep_all es)

  of_type-keep_if :
      (t : Option String) (es : List (AuditEntry D))
      → of_type t es ≡ keep_if (λ e. is_wanted t (some e.event_type)) es
  unfolding of_type is_wanted
  of_type-keep_if none es = sym (keep_all es)
  of_type-keep_if (some String.[]) es = sym (keep_all es)
  of_type-keep_if (some (String.◌∷◌ c t)) es =
      keep_if-same (λ e. str_eq e.event_type (String.◌∷◌ c t))
        (λ e. is_wanted (some (String.◌∷◌ c t)) (some e.event_type)) es
        (λ e. is_user-is_wanted (some e.event_type) c t)

  of_user-keep_if :
      (u : Option String) (es : List (AuditEntry D))
      → of_user u es ≡ keep_if (λ e. is_wanted u e.user_id) es
  unfolding of_user is_wanted
  of_user-keep_if none es = sym (keep_all es)
  of_user-keep_if (some String.[]) es =
      sym (keep_all es)
      ∙ keep_if-same (λ e. true) (λ e. is_wanted (some "") e.user_id) es
          (λ e. sym (empty-is_wanted e.user_id))
  of_user-keep_if (some (String.◌∷◌ c t)) es =
      keep_if-same (λ e. is_user e.user_id (String.◌∷◌ c t))
        (λ e. is_wanted (some (String.◌∷◌ c t)) e.user_id) es (λ e. is_user-is_wanted e.user_id c t)

  keep_if-keep_if :
      (p q : AuditEntry D → Bool) (es : List (AuditEntry D))
      → keep_if p (keep_if q es) ≡ keep_if (λ e. q e && p e) es
  keep_if-keep_if p q [] = refl
  keep_if-keep_if p q (e ∷ es) = ground (arith, keep_if-keep_if p q es)

  -- For a positive `count`, `get_recent_entries` returns what a scan from the newest entry back
  -- finds, in the order of the log: the first `count` entries of the given type and of the given
  -- user. A filter that is absent or empty wants every entry; a user who is given wants no entry
  -- without one.
  pub get_recent_entries_lem :
      (l : AuditLogger D) (count : ℕ) (t u : Option String)
      → 0 < count
      → get_recent_entries l count t u
        ≡ reverse (
            first_wanted count
              (λ e. is_wanted t (some e.event_type) && is_wanted u e.user_id)
              (reverse l.entries))
  unfolding get_recent_entries last_few
  get_recent_entries_lem l count t u pos =
      let wanted : AuditEntry D → Bool =
        λ e. is_wanted t (some e.event_type) && is_wanted u e.user_id in
      last_of-pos count (of_user u (of_type t l.entries)) pos
      ∙ ap (last_few count) (
          of_user-keep_if u (of_type t l.entries)
          ∙ ap (keep_if (λ e. is_wanted u e.user_id)) (of_type-keep_if t l.entries)
          ∙ keep_if-keep_if (λ e. is_wanted u e.user_id) (λ e. is_wanted t (some e.event_type))
              l.entries
          ∙ ap (keep_if wanted) (sym (reverse-reverse l.entries)))
      ∙ sym (reverse-first_wanted count wanted (reverse l.entries))
