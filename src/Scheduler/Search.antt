-- ===== src/Scheduler/Search.antt =====
-- What `GetTaskByPID` finds in the ring.
use veil_os.Base.{
  ℕ, zero, suc, ◌<◌, ◌≡◌, ◌≢◌, ◌⊎◌, inl, inr, refl, sym, ap, ◌∙◌, Bool, true, false, Option, none,
  some, List, [], ◌∷◌, ◌++◌, length, ◌==◌, if◌then◌else◌, arith, ne→==, ==_refl,
}
use veil_os.Scheduler.{Scheduler, Store, default_task, advance, search_pid, get_task_by_pid}
use veil_os.Scheduler.Ring.{NotIn, Links, IsRing}

-- The first task of a list with a process id.
unfoldable pub find_pid : Store → List ℕ → (pid : ℕ) → Option ℕ
find_pid s [] pid = none
find_pid s (a ∷ tasks) pid = if (s a).pid == pid then some a else find_pid s tasks pid

advance_next : (s : Store) (a b : ℕ) → (s a).next ≡ some b → advance s a ≡ some b
unfolding advance
advance_next s a b e = rw (e, advance) refl

search_step :
    (fuel : ℕ) (s : Store) (start a pid b : ℕ)
    → advance s a ≡ some b
    → search_pid (suc fuel) s start a pid ≡ (
        if (s b).pid == pid
        then some (some b)
        else if b == start
        then some none
        else search_pid fuel s start b pid)
unfolding search_pid
search_step fuel s start a pid b e = rw (e, search_pid) refl

at_end :
    (hit same : Bool) (a : ℕ) (r : Option (Option ℕ))
    → same ≡ true
    → (if hit then some (some a) else if same then some none else r)
      ≡ some (if hit then some a else none)
at_end true same a r e = refl
at_end false same a r e = rw e refl

going_on :
    (hit same : Bool) (a : ℕ) {r : Option (Option ℕ)} {found : Option ℕ}
    → same ≡ false
    → r ≡ some found
    → (if hit then some (some a) else if same then some none else r)
      ≡ some (if hit then some a else found)
going_on true same a e rest = refl
going_on false same a e rest = rw e rest

search_pid-Links :
    (fuel : ℕ) (s : Store) (start a pid : ℕ) (bs : List ℕ)
    → Links s a bs start
    → NotIn start bs
    → length bs < fuel
    → search_pid fuel s start a pid ≡ some (find_pid s (bs ++ start ∷ []) pid)
unfolding find_pid
search_pid-Links zero s start a pid bs l out lt = absurd (omega arith)
search_pid-Links (suc fuel) s start a pid [] l out lt =
    search_step fuel s start a pid start (advance_next s a start l)
    ∙ at_end _ _ start _ (==_refl start)
search_pid-Links (suc fuel) s start a pid (b ∷ bs) l out lt =
    let rest = search_pid-Links fuel s start b pid bs (l.1) (out.1) (omega arith) in
    let other : (b == start) ≡ false = ne→== b start (λ e. out.0 (sym e)) in
    search_step fuel s start a pid b (advance_next s a b (l.0)) ∙ going_on _ _ b other rest

-- When the running task is in the ring, with the tasks behind it in order, `GetTaskByPID` gives the
-- first of them with the process id, then itself, and reports that there is none otherwise. Fuel for
-- the tasks of the ring is enough.
pub get_task_by_pid-Links :
    (fuel : ℕ) (st : Scheduler) (pid : ℕ) (behind : List ℕ)
    → Links st.tasks st.current behind st.current
    → NotIn st.current behind
    → length behind < fuel
    → get_task_by_pid fuel st pid ≡ some (find_pid st.tasks (behind ++ st.current ∷ []) pid)
unfolding get_task_by_pid
get_task_by_pid-Links fuel st pid behind l out lt =
    search_pid-Links fuel st.tasks st.current st.current pid behind l out lt

abbrev pub OneOf : ℕ → List ℕ → Type 0
OneOf a [] = ⊥
OneOf a (x ∷ xs) = (a ≡ x) ⊎ OneOf a xs

pub OneOf-ne : (a b : ℕ) (xs : List ℕ) → OneOf a xs → NotIn b xs → a ≢ b
OneOf-ne a b [] one out = absurd one
OneOf-ne a b (x ∷ xs) (inl e) out = λ same. out.0 (sym same ∙ e)
OneOf-ne a b (x ∷ xs) (inr one) out = OneOf-ne a b xs one (out.1)

OneOf-later : (b d end : ℕ) (bs : List ℕ) → OneOf d bs ⊎ (d ≡ end) → OneOf d (b ∷ bs) ⊎ (d ≡ end)
OneOf-later b d end bs (inl one) = inl (inr one)
OneOf-later b d end bs (inr e) = inr e

-- A task of a list of links leads to another one of them, or out at the end.
OneOf-next :
    (s : Store) (a c end : ℕ) (bs : List ℕ)
    → Links s a bs end
    → OneOf c (a ∷ bs)
    → (b : ℕ) × ((s c).next ≡ some b) × (OneOf b bs ⊎ (b ≡ end))
OneOf-next s a c end [] l (inl e) = (end, ap (λ x. (s x).next) e ∙ l, inr refl)
OneOf-next s a c end [] l (inr one) = absurd one
OneOf-next s a c end (b ∷ bs) l (inl e) = (b, ap (λ x. (s x).next) e ∙ l.0, inl (inl refl))
OneOf-next s a c end (b ∷ bs) l (inr one) =
    let (d, e, at) = OneOf-next s b c end bs (l.1) one in (d, e, OneOf-later b d end bs at)

zero_fuel : (s : Store) (start a pid : ℕ) → search_pid 0 s start a pid ≡ none
unfolding search_pid
zero_fuel s start a pid = refl

in_ring : (first : ℕ) (rest : List ℕ) (c : ℕ) → OneOf c rest ⊎ (c ≡ first) → OneOf c (first ∷ rest)
in_ring first rest c (inl one) = inr one
in_ring first rest c (inr e) = inl e

endless :
    (s : Store) (first : ℕ) (rest : List ℕ) (pid fuel a b : ℕ)
    → IsRing s first rest
    → ((c : ℕ) → OneOf c (first ∷ rest) → (s c).pid ≢ pid)
    → (s a).next ≡ some b
    → OneOf b (first ∷ rest)
    → search_pid fuel s default_task a pid ≡ none
endless s first rest pid zero a b ring missing e one = zero_fuel s default_task a pid
endless s first rest pid (suc fuel) a b ring missing e one =
    let (c, e', at) = OneOf-next s first b first rest (ring.1) one in
    let miss : ((s b).pid == pid) ≡ false = ne→== _ _ (missing b one) in
    let away : (b == default_task) ≡ false =
      ne→== _ _ (OneOf-ne b default_task (first ∷ rest) one (ring.3)) in
    search_step fuel s default_task a pid b (advance_next s a b e)
    ∙ rw (miss, away) (endless s first rest pid fuel b c ring missing e' (in_ring first rest c at))

-- While `default_task` runs and the ring has tasks, `GetTaskByPID` of a process id that no task has
-- never returns: no fuel is enough.
pub get_task_by_pid_endless :
    (fuel : ℕ) (st : Scheduler) (pid first : ℕ) (rest : List ℕ)
    → st.current ≡ default_task
    → IsRing st.tasks first rest
    → ((c : ℕ) → OneOf c (first ∷ rest) → (st.tasks c).pid ≢ pid)
    → get_task_by_pid fuel st pid ≡ none
unfolding get_task_by_pid
get_task_by_pid_endless fuel st pid first rest runs ring missing =
    ap (λ c. search_pid fuel st.tasks c c pid) runs
    ∙ endless st.tasks first rest pid fuel default_task first ring missing (ring.0) (inl refl)
