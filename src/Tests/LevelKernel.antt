-- ===== src/Tests/LevelKernel.antt =====
-- The operating system of Tests/Level behaves as documented, and is level-triggered.
use event_manager.Prelude.{
  ℕ, zero, suc, ◌+◌, ◌<◌, ◌≡◌, refl, ap, ◌∙◌, sym, subst, true, false, Bool, not, none, some, [],
  ◌∷◌, List, err, arith, Option, ◌⊎◌, Option-cases, Bool-cases, inl, inr, get_elem?, length, ◌==◌,
}
use event_manager.Prelude.HashMap
use event_manager.Prelude.HashMap.{HashMap, get-insert, get-remove}
use event_manager.Os.{RawFd, IoError, ControlOperation, op_add, op_modify, op_delete}
use event_manager.Kernel.{Kernel}
use event_manager.Kernel.Level.{IsLevel}
use event_manager.Tests.Kernel.{
  SimEvent, filled, length-fill, filled-le, get_elem?-fill, unwrap_some, unwrap_ok,
}
use event_manager.Tests.Level.{
  LevelWorld, level, level_ctl, level_reports, report_bits, report_one, level_write, ready_set,
  both_bits,
}

filled_room :
    (reported buffer : List SimEvent)
    → filled reported buffer < length buffer
    → filled reported buffer ≡ length reported
filled_room reported [] lt = absurd (omega (arith, lt))
filled_room [] (b ∷ buffer) lt = refl
filled_room (r ∷ reported) (b ∷ buffer) lt =
    ap suc (filled_room reported buffer (omega (arith, lt)))

elem_within : (l : List SimEvent) (i : ℕ) (ev : SimEvent) → get_elem? l i ≡ some ev → i < length l
elem_within [] i ev e = cc
elem_within (x ∷ l) zero ev e = omega arith
elem_within (x ∷ l) (suc i) ev e = omega (arith, elem_within l i ev e)

-- A report carries the data of a registration.
abbrev Registered : LevelWorld → SimEvent → Type 0
Registered w ev =
    (fd : ℕ) × (registered : SimEvent) × (HashMap.get w.interest fd ≡ some registered)
    × (ev.1 ≡ registered.1)

bits-first :
    (bits d : ℕ) (rest : List SimEvent) (i : ℕ) (ev : SimEvent)
    → get_elem? (report_bits bits d rest) i ≡ some ev
    → (ev.1 ≡ d) ⊎ ((k : ℕ) × (get_elem? rest k ≡ some ev))
bits-first zero d rest i ev e = inr (i, e)
bits-first (suc bits) d rest zero ev e = inl (sym (ap (λ x. x.1) (unwrap_some (suc bits, d) ev e)))
bits-first (suc bits) d rest (suc i) ev e = inr (i, e)

one-Registered :
    (w : LevelWorld) (fd : RawFd) (x : Option SimEvent) (rest : List SimEvent) (i : ℕ)
    (ev : SimEvent)
    → HashMap.get w.interest fd ≡ x
    → ((k : ℕ) → get_elem? rest k ≡ some ev → Registered w ev)
    → get_elem? (report_one (ready_set w fd) x rest) i ≡ some ev
    → Registered w ev
one-Registered w fd none rest i ev found later e = later i e
one-Registered w fd (some registered) rest i ev found later e =
    elim (bits-first (both_bits registered.0 (ready_set w fd)) registered.1 rest i ev e) [
      | inl same ↦ (fd, registered, found, same)
      | inr (k, there) ↦ later k there
    ]

reports-Registered :
    (w : LevelWorld) (entries : HashMap SimEvent) (i : ℕ) (ev : SimEvent)
    → get_elem? (level_reports w entries) i ≡ some ev
    → Registered w ev
reports-Registered w [] i ev e = cc
reports-Registered w ((fd, x) ∷ entries) i ev e =
    one-Registered w fd (HashMap.get w.interest fd) (level_reports w entries) i ev refl
      (λ k. reports-Registered w entries k ev) e

level_ctl_err :
    (op : ControlOperation) (fd : RawFd) (ev : SimEvent) (w : LevelWorld) (e : IoError) (j : RawFd)
    → (level_ctl op fd ev w).0 ≡ err e
    → HashMap.get (level_ctl op fd ev w).1.interest j ≡ HashMap.get w.interest j
level_ctl_err op_add fd ev w e j failed = ground arith
level_ctl_err op_modify fd ev w e j failed = ground arith
level_ctl_err op_delete fd ev w e j failed = ground arith

pub level_kernel : Kernel level
level_kernel = record {
  event_laws = record {
    set_of_new = λ s d. refl;
    data_of_new = λ s d. refl;
    fd_of_data = λ e. refl;
  };
  wait_laws = record {
    wait_length = λ ep ms buffer w. length-fill (level_reports w w.interest) buffer;
    wait_count =
        λ ep ms buffer w n e. ground (arith, filled-le (level_reports w w.interest) buffer);
  };
  interest = λ ep w fd. HashMap.get w.interest fd;
  add_ok = λ ep fd ev w j done. ground (arith, get-insert w.interest fd ev j);
  modify_ok = λ ep fd ev w j done. elim (Option-cases (HashMap.get w.interest fd)) [
    | inl missing ↦ absurd (ground arith)
    | inr (old, found) ↦ ((old, found), ground (arith, get-insert w.interest fd ev j))
  ];
  delete_ok = λ ep fd ev w j done. ground (arith, get-remove w.interest fd j);
  ctl_err = λ ep op fd ev w e j failed. level_ctl_err op fd ev w e j failed;
  is_open = λ w fd. true;
  delete_err = λ ep fd ev w e failed. inl (ground arith);
  wait_interest = λ ep ms buffer w j. refl;
  wait_reports = λ ep ms buffer w n i ev count lt e.
      let lt' : i < filled (level_reports w w.interest) buffer =
        ground (arith, unwrap_ok (filled (level_reports w w.interest) buffer) n count) in
      reports-Registered w w.interest i ev
        (sym (get_elem?-fill (level_reports w w.interest) buffer i lt') ∙ e);
  write_interest = λ ep fd n w j. ground arith;
  read_interest = λ ep fd w j. ground arith;
  new_empty = λ w ep j made. unfold HashMap.get in refl;
  eventfd_interest = λ ep flags w j. ground arith;
  eventfd_fd = λ flags w fd made. ground arith;
}

bits-later :
    (bits d : ℕ) (rest : List SimEvent) (i : ℕ) (ev : SimEvent)
    → get_elem? rest i ≡ some ev
    → (k : ℕ) × (get_elem? (report_bits bits d rest) k ≡ some ev)
bits-later zero d rest i ev e = (i, e)
bits-later (suc bits) d rest i ev e = (suc i, e)

one-later :
    (ready : ℕ) (x : Option SimEvent) (rest : List SimEvent) (i : ℕ) (ev : SimEvent)
    → get_elem? rest i ≡ some ev
    → (k : ℕ) × (get_elem? (report_one ready x rest) k ≡ some ev)
one-later ready none rest i ev e = (i, e)
one-later ready (some r) rest i ev e = bits-later (both_bits r.0 ready) r.1 rest i ev e

one-here :
    (w : LevelWorld) (fd : ℕ) (registered : SimEvent) (rest : List SimEvent)
    → HashMap.get w.interest fd ≡ some registered
    → registered.0 ≡ 1
    → ready_set w fd ≡ 5
    → report_one (ready_set w fd) (HashMap.get w.interest fd) rest ≡ (1, registered.1) ∷ rest
one-here w fd registered rest found set ready =
    ap (λ x. report_one (ready_set w fd) x rest) found
    ∙ ap (λ r. report_one r (some registered) rest) ready
    ∙ ap (λ b. report_one 5 (some (b, registered.1)) rest) set

reports-has :
    (w : LevelWorld) (entries : HashMap SimEvent) (fd : ℕ) (x registered : SimEvent)
    → HashMap.get entries fd ≡ some x
    → HashMap.get w.interest fd ≡ some registered
    → registered.0 ≡ 1
    → ready_set w fd ≡ 5
    → (i : ℕ) × (get_elem? (level_reports w entries) i ≡ some (1, registered.1))
unfolding HashMap.get
reports-has w [] fd x registered there found set ready = cc
reports-has w ((j, y) ∷ entries) fd x registered there found set ready =
    elim (Bool-cases (j == fd)) [
      | inl hit ↦
          let same : fd ≡ j = ground arith in
          subst
            (λ k.
              (i : ℕ) × (get_elem?
                  (report_one (ready_set w k) (HashMap.get w.interest k) (level_reports w entries))
                  i
                ≡ some (1, registered.1)))
            same (0, ap (λ l. get_elem? l 0) (one-here w fd registered _ found set ready))
      | inr miss ↦
          let (i, e) = reports-has w entries fd x registered (rw miss at there) found set ready in
          one-later (ready_set w j) (HashMap.get w.interest j) (level_reports w entries) i _ e
    ]

level_readable : RawFd → LevelWorld → Bool
level_readable fd w = elim (HashMap.get w.counters fd) [ none ↦ false | some n ↦ not (n == 0) ]

readable-write : (fd : RawFd) (w : LevelWorld) → level_readable fd (level_write fd 1 w).1 ≡ true
unfolding level_readable
readable-write fd w = elim (Option-cases (HashMap.get w.counters fd)) [
  | inl missing ↦ ground (arith, get-insert w.counters fd 1 fd)
  | inr (n, found) ↦ ground (arith, get-insert w.counters fd (n + 1) fd)
]

readable-ready : (fd : RawFd) (w : LevelWorld) → level_readable fd w ≡ true → ready_set w fd ≡ 5
unfolding level_readable
readable-ready fd w can = ground arith

pub channel-IsLevel : IsLevel level_kernel 3 4
unfolding level_kernel
channel-IsLevel = record {
  eventfd = record { readable = level_readable 4; write_readable = readable-write 4 };
  wait_readable = λ ms buffer w n registered listed set can count room.
      let reports = level_reports w w.interest in
      let total : filled reports buffer ≡ n = unwrap_ok (filled reports buffer) n count in
      let (i, e) =
        reports-has w w.interest 4 registered registered listed listed set
          (readable-ready 4 w can) in
      let lt : i < n =
        omega (arith, total, elem_within reports i _ e, filled_room reports buffer, room) in
      (
        i,
        (1, registered.1),
        lt,
        get_elem?-fill reports buffer i (omega (arith, lt, total)) ∙ e,
        refl,
        λ same. omega (arith, same),
      );
}

pub interest-level_kernel :
    (ep fd : ℕ) (w : LevelWorld) → level_kernel.interest ep w fd ≡ HashMap.get w.interest fd
unfolding level_kernel
interest-level_kernel ep fd w = refl
