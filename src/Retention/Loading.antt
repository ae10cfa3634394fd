-- ===== src/Retention/Loading.antt =====
-- What the settings of the retention manager do when one of them cannot be read.
use log_librarian.Prelude.{
  ◌≡◌, refl, Option-cases, ℕ, String, Option, none, [], ◌∷◌, List, ◌++◌, inl, inr,
}
use log_librarian.Retention.Settings.{RetentionManager, Setting, load_each}

module _ {F : Type 0} (parse_float : String → Option F) (parse_int : String → Option ℕ)
    (get_system_setting : String → Option String) where
  -- The settings before one that raises stay applied, and those after it are not read.
  pub load_each-append :
      (before after : List (Setting F)) (name : String)
      (change : String → RetentionManager F → Option (RetentionManager F)) (m : RetentionManager F)
      → get_system_setting name ≡ none
      → load_each parse_float parse_int get_system_setting (before ++ (name, change) ∷ after) m
        ≡ load_each parse_float parse_int get_system_setting before m
  unfolding load_each
  load_each-append [] after name change m h = rw (h, load_each) refl
  load_each-append ((n, c) ∷ before) after name change m h =
      elim (Option-cases (get_system_setting n)) [
        | inl missing ↦ rw (missing, load_each) refl
        | inr (text, read) ↦ elim (Option-cases (c text m)) [
          | inl bad ↦ rw (read, load_each, bad) refl
          | inr (m', good) ↦
              rw (read, load_each, good) (load_each-append before after name change m' h)
        ]
      ]
