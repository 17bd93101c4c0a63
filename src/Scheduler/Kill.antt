-- ===== src/Scheduler/Kill.antt =====
-- How `get_next_task` takes tasks that are to be killed out of the ring.
use veil_os.Base.{
  ℕ, ◌≡◌, ◌≢◌, inl, inr, refl, sym, ap, ◌∙◌, true, false, some, List, [], ◌∷◌, ◌==◌, ne→==, ==_refl,
  has, Bool-cases, Option-cases,
}
use veil_os.Scheduler.{
  Scheduler, Store, default_task, kill_task, set_next, alive, reap, unlink, move_entry,
}
use veil_os.Scheduler.Ring.{NotIn, Distinct, Links, IsRing, set_next_self, set_next-ne}
use veil_os.Scheduler.Search.{OneOf, OneOf-ne}

Links-same :
    (s s' : Store) (a end : ℕ) (bs : List ℕ)
    → Links s a bs end
    → ((c : ℕ) → OneOf c (a ∷ bs) → (s' c).next ≡ (s c).next)
    → Links s' a bs end
Links-same s s' a end [] l same = same a (inl refl) ∙ l
Links-same s s' a end (b ∷ bs) l same =
    (same a (inl refl) ∙ l.0, Links-same s s' b end bs (l.1) (λ c one. same c (inr one)))

move_entry-ne : (s : Store) (a b c : ℕ) → c ≢ default_task → move_entry s a b c ≡ s c
unfolding move_entry
move_entry-ne s a b c ne = elim (Option-cases (s default_task).next) [
  | inl e ↦ rw (e, move_entry) refl
  | inr (first, e) ↦ elim (Bool-cases (first == b)) [
    | inl hit ↦ rw (e, move_entry, hit) (set_next-ne s default_task c _ ne)
    | inr miss ↦ rw (e, move_entry, miss) refl
  ]
]

-- The store behind a round that kills `b`, the task behind `a`.
abbrev pub reaped : Store → (a b : ℕ) → Store
reaped s a b = let after = move_entry s a b in set_next after a (after b).next

reap-eq :
    (st : Scheduler) (a b : ℕ)
    → a ≢ default_task
    → b ≢ a
    → (st.tasks a).next ≡ some b
    → has (st.tasks b).flags kill_task ≡ true
    → reap st a ≡ alive (record st { tasks = reaped st.tasks a b; killed = b ∷ st.killed })
unfolding reap unlink
reap-eq st a b na ne e flagged =
    let after = move_entry st.tasks a b in
    let e' : (after a).next ≡ some b = ap (λ t. t.next) (move_entry-ne st.tasks a b a na) ∙ e in
    rw (e, reap, flagged, ne→== b a ne, e', unlink) refl

-- A round of `get_next_task` at a task of the ring, when the next one is another task that is to be
-- killed: exactly that one is killed, and the tasks behind it follow in their order.
pub reap-Links :
    (st : Scheduler) (a b : ℕ) (bs : List ℕ)
    → Links st.tasks a (b ∷ bs) a
    → Distinct (a ∷ b ∷ bs)
    → NotIn default_task (a ∷ b ∷ bs)
    → has (st.tasks b).flags kill_task ≡ true
    → (st' : Scheduler) × (reap st a ≡ alive st')
      × (st'.killed ≡ b ∷ st.killed)
      × Links st'.tasks a bs a
reap-Links st a b bs l d out flagged = (
  record st { tasks = reaped st.tasks a b; killed = b ∷ st.killed },
  reap-eq st a b (λ e. out.0 (sym e)) (λ e. d.0.0 (sym e)) (l.0) flagged,
  refl,
  rest bs (l.1) (d.0.1) (out.1.1),
)
  where
    s' : Store
    s' = reaped st.tasks a b

    at : (s' a).next ≡ (st.tasks b).next
    at =
        set_next_self (move_entry st.tasks a b) a _
        ∙ ap (λ t. t.next) (move_entry-ne st.tasks a b b (λ e. out.1.0 (sym e)))

    other : (c : ℕ) → c ≢ a → c ≢ default_task → (s' c).next ≡ (st.tasks c).next
    other c na nd =
        ap (λ t. t.next)
          (set_next-ne (move_entry st.tasks a b) a c _ na ∙ move_entry-ne st.tasks a b c nd)

    rest :
        (cs : List ℕ) → Links st.tasks b cs a → NotIn a cs → NotIn default_task cs → Links s' a cs a
    rest [] links na nd = at ∙ links
    rest (c ∷ cs) links na nd = (
      at ∙ links.0,
      Links-same st.tasks s' c a cs (links.1) (λ x one.
          other x (OneOf-ne x a (c ∷ cs) one na) (OneOf-ne x default_task (c ∷ cs) one nd)),
    )

move_entry_default :
    (s : Store) (first second : ℕ)
    → (s default_task).next ≡ some first
    → (s first).next ≡ some second
    → (first == default_task) ≡ false
    → (move_entry s default_task first default_task).next ≡ some second
unfolding move_entry
move_entry_default s first second entry behind ne =
    rw (entry, move_entry, ==_refl first, ne) (set_next_self s default_task (s first).next ∙ behind)

-- A round of `get_next_task` at `default_task`, when the first task of the ring is to be killed and
-- there is a second one: the second one is killed in its place.
pub reap_default-second :
    (st : Scheduler) (first second : ℕ) (rest : List ℕ)
    → IsRing st.tasks first (second ∷ rest)
    → has (st.tasks first).flags kill_task ≡ true
    → (tasks : Store) × (reap st default_task
        ≡ alive (record st { tasks = tasks; killed = second ∷ st.killed }))
unfolding reap unlink
reap_default-second st first second rest ring flagged =
    let s = st.tasks in
    let ne : (first == default_task) ≡ false = ne→== first default_task (λ e. ring.3.0 (sym e)) in
    let after = move_entry s default_task first in
    let moved = move_entry_default s first second (ring.0) (ring.1.0) ne in
    (
      set_next after default_task (after second).next,
      rw (ring.0, reap, flagged, ne, moved, unlink) refl,
    )
