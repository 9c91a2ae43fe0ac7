-- ===== src/Runtime/ListHeap.antt =====
-- A list that keeps to the interface of the heap: it shows that the interface can be met, and runs in
-- the tests.
use mathlib.Core.Option.{some-injective}
use ughi.Prelude.{
  ◌+◌, ◌≡◌, refl, ap, subst, Bool, true, false, List, [], ◌∷◌, Option, none, some, inl, inr, count,
  unit, arith, if◌then◌else◌, Option-cases, Bool-cases,
}
use ughi.Runtime.SchedulerEntry.{SchedulerEntry, is_less}
use ughi.Runtime.BinaryHeap.{BinaryHeap}

-- Takes out the first of the greatest entries.
unfoldable pub pop_list : List SchedulerEntry → Option (SchedulerEntry × List SchedulerEntry)
pop_list [] = none
pop_list (e ∷ es) = elim (pop_list es) [
  | none ↦ some (e, [])
  | some (f, rest) ↦ if is_less e f then some (f, e ∷ rest) else some (e, f ∷ rest)
]

pub pop_list-none : (q : List SchedulerEntry) → pop_list q ≡ none → q ≡ []
unfolding pop_list
pop_list-none [] h = refl
pop_list-none (e ∷ es) h = ground arith

pub count-pop_list :
    (p : SchedulerEntry → Bool) (q r : List SchedulerEntry) (e : SchedulerEntry)
    → pop_list q ≡ some (e, r)
    → count p q ≡ unit (p e) + count p r
unfolding pop_list
count-pop_list p [] r e h = cc
count-pop_list p (x ∷ xs) r e h = elim (Option-cases (pop_list xs)) [
  | inl n ↦ ground (arith, pop_list-none xs n)
  | inr ((f, rest), s) ↦ ground (arith, count-pop_list p xs rest f s)
]

less_trans :
    (e f g : SchedulerEntry) → is_less e f ≡ false → is_less f g ≡ false → is_less e g ≡ false
less_trans e f g h k = ground arith

less_asym : (e f : SchedulerEntry) → is_less e f ≡ true → is_less f e ≡ false
less_asym e f h = ground arith

less_irrefl : (e : SchedulerEntry) → is_less e e ≡ false
less_irrefl e = ground arith

none_greater :
    (e f : SchedulerEntry) (es : List SchedulerEntry)
    → is_less e f ≡ false
    → count (is_less f) es ≡ 0
    → count (is_less e) es ≡ 0
none_greater e f [] h c = refl
none_greater e f (x ∷ xs) h c = elim (Bool-cases (is_less f x)) [
  | inl y ↦ absurd (omega (arith, ap unit y))
  | inr n ↦ rw (less_trans e f x h n) (omega (arith, none_greater e f xs h (omega arith)))
]

same_head :
    {e f : SchedulerEntry} {q r : List SchedulerEntry}
    → ◌≡◌ {A = Option (SchedulerEntry × List SchedulerEntry)} (some (e, q)) (some (f, r))
    → e ≡ f
same_head h = ap (λ (x : SchedulerEntry × List SchedulerEntry). x.0) (some-injective _ _ h)

pub pop_list_greatest :
    (q r : List SchedulerEntry) (e : SchedulerEntry)
    → pop_list q ≡ some (e, r)
    → count (is_less e) q ≡ 0
unfolding pop_list
pop_list_greatest [] r e h = refl
pop_list_greatest (x ∷ xs) r e h = elim (Option-cases (pop_list xs)) [
  | inl n ↦ ground (arith, pop_list-none xs n, less_irrefl x)
  | inr ((f, rest), s) ↦ elim (Bool-cases (is_less x f)) [
    | inl l ↦
        let eq : f ≡ e = same_head (rw (s, pop_list, l) at h) in
        subst (λ y. count (is_less y) (x ∷ xs) ≡ 0) eq
          (rw (less_asym x f l) (omega (arith, pop_list_greatest xs rest f s)))
    | inr n ↦
        let eq : x ≡ e = same_head (rw (s, pop_list, n) at h) in
        subst (λ y. count (is_less y) (x ∷ xs) ≡ 0) eq
          (rw (less_irrefl x)
            (omega (arith, none_greater x f xs n (pop_list_greatest xs rest f s))))
  ]
]

abbrev pub list_heap : BinaryHeap (List SchedulerEntry)
list_heap = record {
  to_vec = λ q. q;
  empty = [];
  from_vec = λ es. es;
  push = λ e q. e ∷ q;
  pop = pop_list;
  to_vec-empty = refl;
  count-from_vec = λ p es. refl;
  count-push = λ p e q. refl;
  pop-none = pop_list-none;
  count-pop = count-pop_list;
  pop_greatest = pop_list_greatest;
}
