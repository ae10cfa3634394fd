-- ===== src/Security/RateLimiter/Windows.antt =====
-- One sliding window of one identifier: the requests stored for it, against all that were admitted.
use log_librarian.Prelude.{
  ℕ, ◌<◌, ◌≤◌, ◌≡◌, refl, ap, ◌∙◌, sym, List, [], ◌∷◌, ◌++◌, arith, length, keep_if, keep_if-append,
  length-append, length-keep_if-le,
}
use log_librarian.Security.RateLimiter.{within}

-- From `clock` on, the window sees the same of the stored as of the admitted requests, and never
-- more than the limit.
pub record Tracks (window limit clock : ℕ) (stored admitted : List ℕ) : Type 0 where
  pub same :
      (at : ℕ)
      → clock ≤ at
      → keep_if (within window at) stored ≡ keep_if (within window at) admitted
  pub bounded : (at : ℕ) → clock ≤ at → length (keep_if (within window at) admitted) ≤ limit

keep_later :
    (window now at : ℕ) (ts : List ℕ)
    → now ≤ at
    → keep_if (within window at) (keep_if (within window now) ts) ≡ keep_if (within window at) ts
keep_later window now at [] h = refl
keep_later window now at (t ∷ ts) h = ground (arith, keep_later window now at ts h)

length-keep_later :
    (window now at : ℕ) (ts : List ℕ)
    → now ≤ at
    → length (keep_if (within window at) ts) ≤ length (keep_if (within window now) ts)
length-keep_later window now at [] h = omega arith
length-keep_later window now at (t ∷ ts) h = ground (arith, length-keep_later window now at ts h)

module _ (window limit : ℕ) where
  pub Tracks-empty : (clock : ℕ) → Tracks window limit clock [] []
  Tracks-empty clock = record { same = λ at h. refl; bounded = λ at h. omega arith }

  pub Tracks-later :
      (clock now : ℕ) (stored admitted : List ℕ)
      → clock ≤ now
      → Tracks window limit clock stored admitted
      → Tracks window limit now stored admitted
  Tracks-later clock now stored admitted h t = record {
    same = λ at le. t.same at (omega arith);
    bounded = λ at le. t.bounded at (omega arith);
  }

  pub Tracks-clean :
      (now : ℕ) (stored admitted : List ℕ)
      → Tracks window limit now stored admitted
      → Tracks window limit now (keep_if (within window now) stored) admitted
  Tracks-clean now stored admitted t = record {
    same = λ at le. keep_later window now at stored le ∙ t.same at le;
    bounded = t.bounded;
  }

  pub Tracks-admit :
      (now : ℕ) (stored admitted : List ℕ)
      → Tracks window limit now stored admitted
      → length (keep_if (within window now) stored) < limit
      → Tracks window limit now
          (keep_if (within window now) stored ++ now ∷ [])
          (admitted ++ now ∷ [])
  Tracks-admit now stored admitted t room = record {
    same = λ at le.
        keep_if-append (within window at) (keep_if (within window now) stored) (now ∷ [])
        ∙ ap (λ l. l ++ keep_if (within window at) (now ∷ []))
            (keep_later window now at stored le ∙ t.same at le)
        ∙ sym (keep_if-append (within window at) admitted (now ∷ []));
    bounded = λ at le.
        let split = keep_if-append (within window at) admitted (now ∷ []) in
        rw split (
          omega (
            arith,
            length-append (keep_if (within window at) admitted)
                (keep_if (within window at) (now ∷ [])),
            length-keep_later window now at admitted le,
            length-keep_if-le (within window at) (now ∷ []),
            ap length (t.same now (omega arith)),
          ));
  }
