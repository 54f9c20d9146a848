-- ===== src/Policy/Redis/Window.antt =====
-- The sliding window of one key over a sequence of checks.
use stile.Prelude.{
  ℕ, ◌+◌, ◌≤◌, ◌≡◌, refl, ap, sym, subst, ◌∙◌, String, false, Bool-cases, inl, inr, List, [], ◌∷◌,
  arith, ltb, str_eq, filter, if◌then◌else◌, length,
}
use stile.Policy.Redis.{SortedSet, live, without_member, zadd, sliding_window}

-- The set that checks at these times leave, each with its member, first to last, and the checks
-- that they admitted, newest first.
pub record Trail : Type 0 where
  pub set : SortedSet
  pub admitted : List (ℕ × String)

abbrev pub step : ℕ → ℕ → ℕ → String → Trail → Trail
step limit window t member trail = record {
  set = (sliding_window limit window t member trail.set).0;
  admitted =
      if (sliding_window limit window t member trail.set).1
      then (t, member) ∷ trail.admitted
      else trail.admitted;
}

abbrev pub run_checks : ℕ → ℕ → List (ℕ × String) → Trail → Trail
run_checks limit window [] trail = trail
run_checks limit window ((t, member) ∷ checks) trail =
    run_checks limit window checks (step limit window t member trail)

abbrev pub trail_of : ℕ → ℕ → List (ℕ × String) → Trail
trail_of limit window checks = run_checks limit window checks (record { set = []; admitted = [] })

-- The times do not fall, from `from` to `to`.
abbrev pub Ascending : ℕ → List (ℕ × String) → ℕ → Type 0
Ascending from [] to = from ≤ to
Ascending from ((t, member) ∷ checks) to = (from ≤ t) × Ascending t checks to

-- each member of these checks, newest first, with the time of its newest check
abbrev pub newest : List (ℕ × String) → SortedSet
newest [] = []
newest ((t, member) ∷ older) = zadd t member (newest older)

live-live :
    (window t now : ℕ) (xs : SortedSet)
    → t ≤ now
    → live window now (live window t xs) ≡ live window now xs
live-live window t now [] h = refl
live-live window t now ((m, x) ∷ xs) h = ground (arith, live-live window t now xs)

length-live : (window now : ℕ) (xs : SortedSet) → length (live window now xs) ≤ length xs
length-live window now [] = omega arith
length-live window now ((m, x) ∷ xs) = ground (arith, length-live window now xs)

length-without_member :
    (member : String) (xs : SortedSet) → length (without_member member xs) ≤ length xs
length-without_member member [] = omega arith
length-without_member member ((m, x) ∷ xs) = ground (arith, length-without_member member xs)

live-without_member :
    (window now : ℕ) (member : String) (xs : SortedSet)
    → live window now (without_member member xs) ≡ without_member member (live window now xs)
live-without_member window now member [] = refl
live-without_member window now member ((m, x) ∷ xs) =
    ground (arith, live-without_member window now member xs)

-- From the time of the last check on, the set has the newest admissions as far as these are live.
record Faithful (limit window last : ℕ) (trail : Trail) : Type 0 where
  few : length trail.set ≤ limit
  same :
      (now : ℕ) → last ≤ now → live window now trail.set ≡ live window now (newest trail.admitted)

live-zadd :
    (window now t : ℕ) (member : String) (xs ys : SortedSet)
    → live window now xs ≡ live window now ys
    → live window now (zadd t member xs) ≡ live window now (zadd t member ys)
live-zadd window now t member xs ys h =
    let rest =
      live-without_member window now member xs
      ∙ ap (λ (zs : SortedSet). without_member member zs) h
      ∙ sym (live-without_member window now member ys) in
    ground (arith, rest)

step-Faithful :
    (limit window last t : ℕ) (member : String) (trail : Trail)
    → last ≤ t
    → Faithful limit window last trail
    → Faithful limit window t (step limit window t member trail)
unfolding sliding_window
step-Faithful limit window last t member trail l f = record {
  few = ground (
    arith,
    f.few,
    length-live window t trail.set,
    length-without_member member (live window t trail.set),
  );
  same = λ now h.
      let kept = live-live window t now trail.set h ∙ f.same now (omega arith) in
      elim (Bool-cases (ltb (length (live window t trail.set)) limit)) [
        | inl e ↦
            rw e
              (live-zadd window now t member (live window t trail.set) (newest trail.admitted) kept)
        | inr e ↦ rw e kept
      ];
}

run_checks-Faithful :
    (limit window last now : ℕ) (checks : List (ℕ × String)) (trail : Trail)
    → Ascending last checks now
    → Faithful limit window last trail
    → Faithful limit window now (run_checks limit window checks trail)
run_checks-Faithful limit window last now [] trail a f = record {
  few = f.few;
  same = λ n h. f.same n (omega arith);
}
run_checks-Faithful limit window last now ((t, member) ∷ checks) trail a f =
    run_checks-Faithful limit window t now checks (step limit window t member trail) a.1
      (step-Faithful limit window last t member trail a.0 f)

pub window_exact :
    (limit window now : ℕ) (member : String) (checks : List (ℕ × String))
    → Ascending 0 checks now
    → ((sliding_window limit window now member (trail_of limit window checks).set).1
        ≡ ltb (length (live window now (newest (trail_of limit window checks).admitted))) limit)
      × (length (live window now (newest (trail_of limit window checks).admitted)) ≤ limit)
unfolding sliding_window
window_exact limit window now member checks a =
    let f =
      run_checks-Faithful limit window 0 now checks (record { set = []; admitted = [] }) a
        (record { few = omega arith; same = λ n h. refl }) in
    let same = f.same now (omega arith) in
    (
      ground (arith, same),
      ground
          (arith, ap length same, f.few, length-live window now (trail_of limit window checks).set),
    )

-- no two of these checks have the same member
abbrev pub Fresh : String → List (ℕ × String) → Type 0
Fresh member [] = Unit
Fresh member ((t, m) ∷ checks) = (str_eq m member ≡ false) × Fresh member checks

abbrev pub AllFresh : List (ℕ × String) → Type 0
AllFresh [] = Unit
AllFresh ((t, member) ∷ checks) = Fresh member checks × AllFresh checks

-- those that are less than a window old
abbrev pub recent : ℕ → ℕ → List (ℕ × String) → List (ℕ × String)
recent window now checks = filter (λ a. ltb now (a.0 + window)) checks

entries : List (ℕ × String) → SortedSet
entries [] = []
entries ((t, member) ∷ checks) = (member, t) ∷ entries checks

without_member-entries :
    (member : String) (checks : List (ℕ × String))
    → Fresh member checks
    → without_member member (entries checks) ≡ entries checks
unfolding entries
without_member-entries member [] h = refl
without_member-entries member ((t, m) ∷ checks) h =
    ground (arith, h.0, without_member-entries member checks h.1)

newest-entries : (checks : List (ℕ × String)) → AllFresh checks → newest checks ≡ entries checks
unfolding entries
newest-entries [] h = refl
newest-entries ((t, member) ∷ checks) h =
    ap (λ (s : SortedSet). (member, t) ∷ s)
      (ap (λ (s : SortedSet). without_member member s) (newest-entries checks h.1)
        ∙ without_member-entries member checks h.0)

length-live-entries :
    (window now : ℕ) (checks : List (ℕ × String))
    → length (live window now (entries checks)) ≡ length (recent window now checks)
unfolding entries
length-live-entries window now [] = refl
length-live-entries window now ((t, member) ∷ checks) =
    ground (arith, length-live-entries window now checks)

-- After checks of one key at times that do not fall, where no two admissions have the same member, a
-- further check is admitted exactly if fewer than `limit` admissions are less than a window old, and
-- there are never more than `limit` of these.
pub window_exact_fresh :
    (limit window now : ℕ) (member : String) (checks : List (ℕ × String))
    → Ascending 0 checks now
    → AllFresh (trail_of limit window checks).admitted
    → ((sliding_window limit window now member (trail_of limit window checks).set).1
        ≡ ltb (length (recent window now (trail_of limit window checks).admitted)) limit)
      × (length (recent window now (trail_of limit window checks).admitted) ≤ limit)
window_exact_fresh limit window now member checks a fresh =
    let admitted = (trail_of limit window checks).admitted in
    let (decided, few) = window_exact limit window now member checks a in
    let same : length (live window now (newest admitted)) ≡ length (recent window now admitted) =
      ap (λ (s : SortedSet). length (live window now s)) (newest-entries admitted fresh)
      ∙ length-live-entries window now admitted in
    (decided ∙ ap (λ (n : ℕ). ltb n limit) same, subst (λ (n : ℕ). n ≤ limit) same few)
