-- ===== src/Scheduler/Ring.antt =====
-- `AddTask` puts a task at the end of the ring.
use veil_os.Base.{
  ℕ, zero, suc, ◌+◌, ◌<◌, ◌≡◌, ◌≢◌, refl, sym, ap, ◌∙◌, false, Option, none, some, List, [], ◌∷◌,
  ◌++◌, length, ◌==◌, arith, ne→==, ==_refl,
}
use veil_os.Scheduler.{
  Scheduler, add_task, Store, default_task, put_task, set_next, find_last, insert_task,
}

abbrev pub NotIn : ℕ → List ℕ → Type 0
NotIn a [] = a ≡ a
NotIn a (x ∷ xs) = (a ≢ x) × NotIn a xs

abbrev pub Distinct : List ℕ → Type 0
Distinct [] = default_task ≡ default_task
Distinct (x ∷ xs) = NotIn x xs × Distinct xs

-- The tasks behind `a` in order, and the address that the last one leads to.
abbrev pub Links : Store → ℕ → List ℕ → ℕ → Type 0
Links s a [] end = (s a).next ≡ some end
Links s a (b ∷ bs) end = ((s a).next ≡ some b) × Links s b bs end

-- The ring of the tasks in order, entered at the first one.
abbrev pub IsRing : Store → ℕ → List ℕ → Type 0
IsRing s first rest =
    ((s default_task).next ≡ some first)
    × Links s first rest first
    × Distinct (first ∷ rest)
    × NotIn default_task (first ∷ rest)

abbrev pub last_of : ℕ → List ℕ → ℕ
last_of a [] = a
last_of a (b ∷ bs) = last_of b bs

pub set_next_self : (s : Store) (a : ℕ) (n : Option ℕ) → (set_next s a n a).next ≡ n
unfolding set_next put_task
set_next_self s a n = rw (==_refl a) refl

pub set_next-ne : (s : Store) (a b : ℕ) (n : Option ℕ) → b ≢ a → set_next s a n b ≡ s b
unfolding set_next put_task
set_next-ne s a b n ne = rw (ne→== b a ne) refl

find_last-Links :
    (fuel : ℕ) (s : Store) (first a : ℕ) (bs : List ℕ)
    → Links s a bs first
    → NotIn first bs
    → length bs < fuel
    → find_last fuel s first a ≡ some (last_of a bs)
unfolding find_last
find_last-Links zero s first a bs l out lt = absurd (omega arith)
find_last-Links (suc fuel) s first a [] l out lt = rw (l, find_last, ==_refl first) refl
find_last-Links (suc fuel) s first a (b ∷ bs) l out lt =
    let other : (b == first) ≡ false = ne→== b first (λ e. out.0 (sym e)) in
    rw (l.0, find_last, other) (find_last-Links fuel s first b bs (l.1) (out.1) (omega arith))

NotIn-last_of : (a b : ℕ) (bs : List ℕ) → NotIn a (b ∷ bs) → a ≢ last_of b bs
NotIn-last_of a b [] out = out.0
NotIn-last_of a b (c ∷ cs) out = NotIn-last_of a c cs (out.1)

NotIn-append : (a t : ℕ) (xs : List ℕ) → NotIn a xs → a ≢ t → NotIn a (xs ++ t ∷ [])
NotIn-append a t [] out ne = (ne, refl)
NotIn-append a t (x ∷ xs) out ne = (out.0, NotIn-append a t xs (out.1) ne)

Distinct-append : (t : ℕ) (xs : List ℕ) → Distinct xs → NotIn t xs → Distinct (xs ++ t ∷ [])
Distinct-append t [] d out = (refl, refl)
Distinct-append t (x ∷ xs) d out =
    (NotIn-append x t xs (d.0) (λ e. out.0 (sym e)), Distinct-append t xs (d.1) (out.1))

-- The store in which `task` stands between `last` and `end`.
abbrev between : Store → (last task end : ℕ) → Store
between s last task end = set_next (set_next s last (some task)) task (some end)

between-other :
    (s : Store) (last task end a : ℕ) → a ≢ last → a ≢ task → between s last task end a ≡ s a
between-other s last task end a nl nt =
    set_next-ne (set_next s last (some task)) task a (some end) nt
    ∙ set_next-ne s last a (some task) nl

Links-between :
    (s : Store) (a task end : ℕ) (bs : List ℕ)
    → Links s a bs end
    → Distinct (a ∷ bs)
    → NotIn task (a ∷ bs)
    → Links (between s (last_of a bs) task end) a (bs ++ task ∷ []) end
Links-between s a task end [] l d out = (
  ap (λ t. t.next) (set_next-ne (set_next s a (some task)) task a (some end) (λ e. out.0 (sym e)))
      ∙ set_next_self s a (some task),
  set_next_self (set_next s a (some task)) task (some end),
)
Links-between s a task end (b ∷ bs) l d out = (
  ap (λ t. t.next)
        (between-other s (last_of b bs) task end a (NotIn-last_of a b bs (d.0))
          (λ e. out.0 (sym e)))
      ∙ l.0,
  Links-between s b task end bs (l.1) (d.1) (out.1),
)

insert_task-eq :
    (fuel : ℕ) (s : Store) (task first : ℕ) (rest : List ℕ)
    → IsRing s first rest
    → length rest < fuel
    → insert_task fuel s task ≡ some (between s (last_of first rest) task first)
unfolding insert_task
insert_task-eq fuel s task first rest ring lt =
    rw (ring.0, insert_task, find_last-Links fuel s first first rest (ring.1) (ring.2.0) lt) refl

-- `AddTask` of a new task, with fuel for the tasks of the ring, puts it at the end of the ring and
-- gives it an id two above the last one that was kept.
pub add_task-IsRing :
    (fuel : ℕ) (st : Scheduler) (task first : ℕ) (rest : List ℕ)
    → IsRing st.tasks first rest
    → NotIn task (default_task ∷ first ∷ rest)
    → length rest < fuel
    → (st' : Scheduler) × (add_task fuel st task ≡ some (st', st.last_pid + 1 + 1))
      × (IsRing st'.tasks first (rest ++ task ∷ []))
      × (st'.last_pid ≡ st.last_pid + 1)
unfolding add_task
add_task-IsRing fuel st task first rest ring new lt =
    let s' = between st.tasks (last_of first rest) task first in
    (
      record st { tasks = s'; last_pid = st.last_pid + 1 },
      rw (insert_task-eq fuel st.tasks task first rest ring lt, add_task) refl,
      (
        ap (λ t. t.next)
              (between-other st.tasks (last_of first rest) task first default_task
                (NotIn-last_of default_task first rest (ring.3)) (λ e. new.0 (sym e)))
            ∙ ring.0,
        Links-between st.tasks first task first rest (ring.1) (ring.2) (new.1),
        Distinct-append task (first ∷ rest) (ring.2) (new.1),
        NotIn-append default_task task (first ∷ rest) (ring.3) (λ e. new.0 (sym e)),
      ),
      refl,
    )

-- The first task makes a ring of its own.
pub add_first_task-IsRing :
    (fuel : ℕ) (st : Scheduler) (task : ℕ)
    → (st.tasks default_task).next ≡ none
    → task ≢ default_task
    → (st' : Scheduler) × (add_task fuel st task ≡ some (st', st.last_pid + 1 + 1))
      × IsRing st'.tasks task []
unfolding add_task insert_task
add_first_task-IsRing fuel st task empty ne =
    let s1 = set_next st.tasks default_task (some task) in
    let s' = set_next s1 task (some task) in
    (
      record st { tasks = s'; last_pid = st.last_pid + 1 },
      rw (empty, insert_task, add_task) refl,
      (
        ap (λ t. t.next) (set_next-ne s1 task default_task (some task) (λ e. ne (sym e)))
            ∙ set_next_self st.tasks default_task (some task),
        set_next_self s1 task (some task),
        (refl, refl),
        ((λ e. ne (sym e)), refl),
      ),
    )
