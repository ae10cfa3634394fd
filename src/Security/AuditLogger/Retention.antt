-- ===== src/Security/AuditLogger/Retention.antt =====
-- Which entries the logger keeps.
use log_librarian.Prelude.{
  ℕ, zero, suc, ◌+◌, ◌-◌, ◌<◌, ◌≤◌, ◌≡◌, refl, ap, sym, ◌∙◌, List, [], ◌∷◌, ◌++◌, arith, ltb,
  length, length-append, length-drop, drop, if◌then◌else◌, Bool-cases, inl, inr,
}
use mathlib.Core.List.{append_assoc, append-nil}
use log_librarian.Security.AuditLogger.{AuditEntry, AuditLogger, new_logger, last_of, add_entry}

-- The entries logged one after the other.
unfoldable pub add_all : {D : Type 0} → AuditLogger D → List (AuditEntry D) → AuditLogger D
add_all l [] = l
add_all l (e ∷ es) = add_all (add_entry l e) es

module _ {A : Type 0} where
  drop-append_within :
      (n : ℕ) (xs ys : List A) → n ≤ length xs → drop n (xs ++ ys) ≡ drop n xs ++ ys
  drop-append_within zero xs ys h = refl
  drop-append_within (suc n) [] ys h = absurd (omega arith)
  drop-append_within (suc n) (x ∷ xs) ys h = drop-append_within n xs ys (omega arith)

  drop_nil : (n : ℕ) → drop {A = A} n [] ≡ []
  drop_nil zero = refl
  drop_nil (suc n) = refl

  drop-drop : (m n : ℕ) (xs : List A) → drop m (drop n xs) ≡ drop (n + m) xs
  drop-drop m zero xs = ap (λ k. drop k xs) (omega arith)
  drop-drop m (suc n) [] = drop_nil m ∙ sym (drop_nil (suc n + m))
  drop-drop m (suc n) (x ∷ xs) =
      let e : suc (n + m) ≡ suc n + m = omega arith in
      drop-drop m n xs ∙ ap (λ k. drop k (x ∷ xs)) e

  -- Trimming the kept part of a history after one more element keeps that part of the longer one.
  trim_step :
      (limit : ℕ) (h : List A) (e : A)
      → 0 < limit
      → (let d = drop (length h - limit) h ++ e ∷ [] in
          if ltb limit (length d) then drop (length d - limit) d else d)
        ≡ drop (length (h ++ e ∷ []) - limit) (h ++ e ∷ [])
  trim_step limit h e pos =
      let k = length h - limit in
      let joined = h ++ e ∷ [] in
      let kept = drop-append_within k h (e ∷ []) (omega arith) in
      let size : length (drop k joined) ≡ length h + 1 - k =
        omega (arith, length-drop k joined, length-append h (e ∷ [])) in
      rw (← kept) (elim (Bool-cases (ltb limit (length (drop k joined)))) [
        | inl over ↦ rw over (
            drop-drop (length (drop k joined) - limit) k joined
            ∙ ap (λ n. drop n joined) (ground (arith, length-append h (e ∷ []))))
        | inr fits ↦ rw fits (ap (λ n. drop n joined) (ground (arith, length-append h (e ∷ []))))
      ])

module _ {D : Type 0} where
  pub last_of-pos :
      (n : ℕ) (xs : List (AuditEntry D)) → 0 < n → last_of n xs ≡ drop (length xs - n) xs
  unfolding last_of
  last_of-pos n xs pos = ground arith

  add_entry_keeps :
      (l : AuditLogger D) (h : List (AuditEntry D)) (e : AuditEntry D)
      → 0 < l.max_entries
      → l.entries ≡ drop (length h - l.max_entries) h
      → (add_entry l e).entries ≡ drop (length (h ++ e ∷ []) - l.max_entries) (h ++ e ∷ [])
  unfolding add_entry
  add_entry_keeps l h e pos inv = ground (
    arith,
    last_of-pos l.max_entries (l.entries ++ e ∷ []) pos,
    ap (λ (d : List (AuditEntry D)). d ++ e ∷ []) inv,
    trim_step l.max_entries h e pos,
  )

  add_all_keeps :
      (l : AuditLogger D) (h es : List (AuditEntry D))
      → 0 < l.max_entries
      → l.entries ≡ drop (length h - l.max_entries) h
      → (add_all l es).entries ≡ drop (length (h ++ es) - l.max_entries) (h ++ es)
  unfolding add_all add_entry
  add_all_keeps l h [] pos inv = simp append-nil inv
  add_all_keeps l h (e ∷ es) pos inv =
      let next =
        add_all_keeps (add_entry l e) (h ++ e ∷ []) es pos (add_entry_keeps l h e pos inv) in
      rw (append_assoc h (e ∷ []) es) at next

  -- Whatever is logged, in whatever number, a new logger with a positive `max_entries` holds exactly
  -- the last `max_entries` of the entries logged, in order; all of them while they are fewer.
  pub keeps_latest :
      (max_entries : ℕ) (es : List (AuditEntry D))
      → 0 < max_entries
      → (add_all (new_logger max_entries) es).entries ≡ drop (length es - max_entries) es
  keeps_latest max_entries es pos =
      add_all_keeps (new_logger max_entries) [] es pos (sym (drop_nil (0 - max_entries)))

  add_entry_zero :
      (l : AuditLogger D) (e : AuditEntry D)
      → l.max_entries ≡ 0
      → add_entry l e ≡ record l { entries = l.entries ++ e ∷ [] }
  unfolding add_entry
  add_entry_zero l e none_kept = ground arith

  add_all_zero :
      (l : AuditLogger D) (es : List (AuditEntry D))
      → l.max_entries ≡ 0
      → (add_all l es).entries ≡ l.entries ++ es
  unfolding add_all
  add_all_zero l [] h = sym (append-nil l.entries)
  add_all_zero l (e ∷ es) h =
      let step = add_entry_zero l e h in
      add_all_zero (add_entry l e) es (ap (λ (t : AuditLogger D). t.max_entries) step ∙ h)
      ∙ ap (λ (t : AuditLogger D). t.entries ++ es) step
      ∙ append_assoc l.entries (e ∷ []) es

  -- With `max_entries` 0 the logger keeps everything: `entries[-0:]` is the whole list, so nothing
  -- is ever trimmed.
  pub keeps_all_at_zero : (es : List (AuditEntry D)) → (add_all (new_logger 0) es).entries ≡ es
  keeps_all_at_zero es = add_all_zero (new_logger 0) es refl
