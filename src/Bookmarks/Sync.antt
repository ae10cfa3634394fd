-- ===== src/Bookmarks/Sync.antt =====
-- Which bookmarks have a loop after the engine read the active ones.
use log_librarian.Prelude.{
  ◌∙◌, ◌≡◌, refl, ap, String, Bool, true, false, not, ◌&&◌, ◌||◌, Option, none, some, List, [], ◌∷◌,
  inl, inr, arith, Bool-cases, Option-cases, str_eq, eq_iff, if◌then◌else◌,
}
use mathlib.Core.Path.{sym}
use log_librarian.Prelude.Dict.{Dict, contains, lookup, insert, lookup-insert, lookup-delete}
use log_librarian.Bookmarks.Probes.{Bookmark}
use log_librarian.Bookmarks.Engine.{
  Task, BookmarkMonitor, is_listed, task_of, start_monitor, stop_monitor, start_new, stop_old,
  sync_monitors,
}

-- The task of a new loop for the first listed bookmark of an id.
unfoldable pub fresh_task : Bool → String → List Bookmark → Option Task
fresh_task running id [] = none
fresh_task running id (b ∷ bs) =
    let rest = fresh_task running id bs in if str_eq b.id id then some (task_of running b) else rest

-- What an id has after a sync: nothing if it is not active, its task if it had one, and the task of
-- a new loop otherwise.
unfoldable pub tracked : Bool → String → List Bookmark → Option Task → Option Task
tracked running id active (some t) = if is_listed id active then some t else none
tracked running id active none = fresh_task running id active

-- The first of two entries that is there.
abbrev or_else : Option Task → Option Task → Option Task
or_else none o = o
or_else (some t) o = some t

or_none : (o : Option Task) → o ≡ or_else o none
or_none none = refl
or_none (some t) = refl

or_none_eq : (o : Option Task) → or_else o none ≡ o
or_none_eq none = refl
or_none_eq (some t) = refl

fresh_task-unlisted :
    (running : Bool) (id : String) (bs : List Bookmark)
    → is_listed id bs ≡ false
    → fresh_task running id bs ≡ none
unfolding fresh_task is_listed
fresh_task-unlisted running id [] h = refl
fresh_task-unlisted running id (b ∷ bs) h = ground (arith, fresh_task-unlisted running id bs)

contains_missing :
    (id : String) (tasks : Dict Task) → lookup id tasks ≡ none → contains id tasks ≡ false
unfolding contains
contains_missing id tasks h = rw (h, contains) refl

contains_present :
    (id : String) (t : Task) (tasks : Dict Task)
    → lookup id tasks ≡ some t
    → contains id tasks ≡ true
unfolding contains
contains_present id t tasks h = rw (h, contains) refl

start_monitor-new :
    (running : Bool) (b : Bookmark) (tasks : Dict Task)
    → contains b.id tasks ≡ false
    → start_monitor running b tasks ≡ insert b.id (task_of running b) tasks
unfolding start_monitor
start_monitor-new running b tasks h = rw h refl

start_monitor-old :
    (running : Bool) (b : Bookmark) (tasks : Dict Task)
    → contains b.id tasks ≡ true
    → start_monitor running b tasks ≡ tasks
unfolding start_monitor
start_monitor-old running b tasks h = rw h refl

lookup-start_monitor :
    (running : Bool) (id : String) (b : Bookmark) (tasks : Dict Task)
    → lookup id (start_monitor running b tasks)
      ≡ or_else (lookup id tasks) (if str_eq b.id id then some (task_of running b) else none)
lookup-start_monitor running id b tasks = elim (Option-cases (lookup b.id tasks)) [
  | inl missing ↦
      rw
        (
          start_monitor-new running b tasks (contains_missing b.id tasks missing),
          lookup-insert b.id id (task_of running b) tasks,
        )
        (elim (Bool-cases (str_eq b.id id)) [
          | inl same ↦
              let p : b.id ≡ id = (eq_iff b.id id).0 same in
              rw (same, ap (λ i. lookup i tasks) (sym p) ∙ missing) refl
          | inr other ↦ rw other (or_none (lookup id tasks))
        ])
  | inr (t, present) ↦
      rw (start_monitor-old running b tasks (contains_present b.id t tasks present))
        (elim (Bool-cases (str_eq b.id id)) [
          | inl same ↦
              let p : b.id ≡ id = (eq_iff b.id id).0 same in
              rw (ap (λ i. lookup i tasks) (sym p) ∙ present) refl
          | inr other ↦ rw other (or_none (lookup id tasks))
        ])
]

lookup-stop_monitor :
    (id j : String) (tasks : Dict Task)
    → lookup id (stop_monitor j tasks) ≡ (if str_eq j id then none else lookup id tasks)
unfolding stop_monitor
lookup-stop_monitor id j tasks = elim (Option-cases (lookup j tasks)) [
  | inl missing ↦ rw (contains_missing j tasks missing) (elim (Bool-cases (str_eq j id)) [
    | inl same ↦
        let p : j ≡ id = (eq_iff j id).0 same in
        rw (same, ap (λ i. lookup i tasks) (sym p) ∙ missing) refl
    | inr other ↦ rw other refl
  ])
  | inr (t, present) ↦ rw (contains_present j t tasks present) (lookup-delete j id tasks)
]

or_else_assoc : (x y z : Option Task) → or_else (or_else x y) z ≡ or_else x (or_else y z)
or_else_assoc none y z = refl
or_else_assoc (some t) y z = refl

lookup-start_new :
    (running : Bool) (id : String) (kept : Dict Task) (bs : List Bookmark) (tasks : Dict Task)
    → lookup id (start_new running kept bs tasks)
      ≡ or_else (lookup id tasks) (if contains id kept then none else fresh_task running id bs)
unfolding start_new fresh_task
lookup-start_new running id kept [] tasks = elim (Bool-cases (contains id kept)) [
  | inl old ↦ rw old (or_none (lookup id tasks))
  | inr new ↦ rw new (or_none (lookup id tasks))
]
lookup-start_new running id kept (b ∷ bs) tasks =
    let next = (if contains b.id kept then tasks else start_monitor running b tasks) in
    lookup-start_new running id kept bs next ∙ elim (Bool-cases (contains b.id kept)) [
      | inl old ↦ rw old (elim (Bool-cases (str_eq b.id id)) [
        | inl same ↦
            let p : b.id ≡ id = (eq_iff b.id id).0 same in
            rw (ap (λ i. contains i kept) (sym p) ∙ old) refl
        | inr other ↦ rw other refl
      ])
      | inr new ↦
          rw (new, lookup-start_monitor running id b tasks)
            (elim (Bool-cases (str_eq b.id id)) [
              | inl same ↦
                  let p : b.id ≡ id = (eq_iff b.id id).0 same in
                  rw (same, ap (λ i. contains i kept) (sym p) ∙ new)
                    (or_else_assoc (lookup id tasks) (some (task_of running b))
                      (fresh_task running id bs))
              | inr other ↦ rw (other, or_none_eq (lookup id tasks)) refl
            ])
    ]

contains-cons :
    (id j : String) (t : Task) (tasks : Dict Task)
    → contains id ((j, t) ∷ tasks) ≡ (str_eq j id || contains id tasks)
unfolding contains lookup
contains-cons id j t tasks = ground arith

-- What a key of the running tasks does to the tasks, if it is not active.
lookup-one_old :
    (id j : String) (active : List Bookmark) (tasks : Dict Task)
    → lookup id (if is_listed j active then tasks else stop_monitor j tasks)
      ≡ (if str_eq j id && not (is_listed id active) then none else lookup id tasks)
lookup-one_old id j active tasks = elim (Bool-cases (str_eq j id)) [
  | inl same ↦
      let p : j ≡ id = (eq_iff j id).0 same in
      rw (same, ap (λ i. is_listed i active) p)
        (elim (Bool-cases (is_listed id active)) [
          | inl listed ↦ rw listed refl
          | inr unlisted ↦ rw unlisted (lookup-stop_monitor id j tasks ∙ rw same refl)
        ])
  | inr other ↦ rw other (elim (Bool-cases (is_listed j active)) [
    | inl listed ↦ rw listed refl
    | inr unlisted ↦ rw unlisted (lookup-stop_monitor id j tasks ∙ rw other refl)
  ])
]

if_both :
    (c s l : Bool) (o : Option Task)
    → (if c && l then none else if s && l then none else o) ≡ (if (s || c) && l then none else o)
if_both c s l o = ground arith

lookup-stop_old :
    (id : String) (active : List Bookmark) (kept tasks : Dict Task)
    → lookup id (stop_old active kept tasks)
      ≡ (if contains id kept && not (is_listed id active) then none else lookup id tasks)
unfolding stop_old contains lookup
lookup-stop_old id active [] tasks = refl
lookup-stop_old id active ((j, t) ∷ kept) tasks =
    let next = (if is_listed j active then tasks else stop_monitor j tasks) in
    lookup-stop_old id active kept next
    ∙ ap (λ o. if contains id kept && not (is_listed id active) then none else o)
        (lookup-one_old id j active tasks)
    ∙ if_both (contains id kept) (str_eq j id) (not (is_listed id active)) (lookup id tasks)
    ∙ ap (λ c. if c && not (is_listed id active) then none else lookup id tasks)
        (sym (contains-cons id j t kept))

-- After the engine read the active bookmarks, an id has a task if it is active, and none
-- otherwise: the task that it had, whether its loop still runs or ended, or a new one if it had
-- none.
pub sync_monitors_tracks_active :
    (id : String) (active : List Bookmark) (m : BookmarkMonitor)
    → lookup id (sync_monitors (some active) m).check_tasks
      ≡ tracked m.running id active (lookup id m.check_tasks)
unfolding sync_monitors tracked
sync_monitors_tracks_active id active m =
    lookup-stop_old id active m.check_tasks (start_new m.running m.check_tasks active m.check_tasks)
    ∙ ap (λ o. if contains id m.check_tasks && not (is_listed id active) then none else o)
        (lookup-start_new m.running id m.check_tasks active m.check_tasks)
    ∙ elim (Option-cases (lookup id m.check_tasks)) [
      | inl missing ↦ rw (contains_missing id m.check_tasks missing, missing, tracked) refl
      | inr (t, present) ↦
          rw (contains_present id t m.check_tasks present, present, tracked)
            (elim (Bool-cases (is_listed id active)) [
              | inl listed ↦ rw listed refl
              | inr unlisted ↦ rw unlisted refl
            ])
    ]
