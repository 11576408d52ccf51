-- ===== src/CryptpilotCore/Mkfs/Pages.antt =====
-- The pages that `IntegrityNoWipeMakeFs` of cryptpilot-core/src/fs/mkfs.rs migrates.
pub mod Ranges
use Prim.Native.Nat.{bit_and}
use native.Mathlib.Nat.{div-lt_iff_lt-mul, div-add-mod', mod-lt, mul-le-mul_right}
use native.Mathlib.Decide.{dec_lt}
use cryptpilot.Prelude.{
  ℕ, zero, suc, ◌+◌, ◌-◌, ◌*◌, ◌/◌, ◌%◌, ◌≤◌, ◌<◌, ◌≡◌, refl, sym, subst, ◌↔◌, ◌⊎◌, inl, inr, Bool,
  true, false, ◌||◌, ◌&&◌, not, ◌^◌, List, [], ◌∷◌, ◌++◌, ◌==◌, ==_iff, if◌then◌else◌, arith,
  div_ceil, Bool-cases,
}
use cryptpilot.CryptpilotCore.System.{BlkTraceEvent}
use cryptpilot.CryptpilotCore.Mkfs.{
  TraceApi, contains, insert, insert_range, is_discard, is_read, is_write, counts, insert_event,
  touched_from, rw_positions,
}
use cryptpilot.CryptpilotCore.Mkfs.Pages.Ranges.{
  contains-append, InRange, contains-range, from_start, up_to_end, contains-insert,
}

-- No page occurs twice.
abbrev pub Distinct : List ℕ → Type 0
Distinct [] = Unit
Distinct (x ∷ set) = (contains x set ≡ false) × Distinct set

Distinct-append :
    (x : ℕ) (set : List ℕ) → contains x set ≡ false → Distinct set → Distinct (set ++ x ∷ [])
Distinct-append x [] new h = (refl, tt)
Distinct-append x (y ∷ set) new h =
    (ground (arith, contains-append y x set), Distinct-append x set (ground arith) h.1)

Distinct-insert : (x : ℕ) (set : List ℕ) → Distinct set → Distinct (insert x set)
unfolding insert
Distinct-insert x set h = elim (Bool-cases (contains x set)) [
  | inl there ↦ rw there h
  | inr new ↦ rw new (Distinct-append x set new h)
]

Distinct-range : (n start : ℕ) (set : List ℕ) → Distinct set → Distinct (insert_range n start set)
unfolding insert_range
Distinct-range zero start set h = h
Distinct-range (suc n) start set h =
    Distinct-range n (start + 1) (insert start set) (Distinct-insert start set h)

module _ (api : TraceApi) where
  -- The bits of the flag are set in the part of the action that holds the kinds of the event.
  abbrev pub HasFlag : ℕ → BlkTraceEvent → Type 0
  HasFlag flag event = bit_and (event.action / 2 ^ api.tc_shift) flag ≡ flag

  -- The event reads or writes, and discards nothing.
  abbrev pub Moves : BlkTraceEvent → Type 0
  Moves event =
      (HasFlag api.tc_read event ⊎ HasFlag api.tc_write event) × (¬ HasFlag api.tc_discard event)

  flag_iff :
      (flag : ℕ) (event : BlkTraceEvent)
      → ((bit_and (event.action / 2 ^ api.tc_shift) flag == flag) ≡ true) ↔ HasFlag flag event
  flag_iff flag event = ==_iff (bit_and (event.action / 2 ^ api.tc_shift) flag) flag

  counts-Moves : (event : BlkTraceEvent) → (counts api event ≡ true) ↔ Moves event
  counts-Moves event =
      by_tests (is_discard api event) (is_read api event) (is_write api event)
        (flag_iff api.tc_discard event) (flag_iff api.tc_read event) (flag_iff api.tc_write event)
    where
      by_tests :
          {D R W : Type 0} (d r w : Bool)
          → ((d ≡ true) ↔ D)
          → ((r ≡ true) ↔ R)
          → ((w ≡ true) ↔ W)
          → ((not d && (r || w)) ≡ true) ↔ ((R ⊎ W) × (¬ D))
      by_tests true r w hd hr hw = ((λ h. cc h), (λ h. absurd (h.1 (hd.0 refl))))
      by_tests false true w hd hr hw = ((λ h. (inl (hr.0 refl), λ k. cc (hd.1 k))), (λ h. refl))
      by_tests false false true hd hr hw = ((λ h. (inr (hw.0 refl), λ k. cc (hd.1 k))), (λ h. refl))
      by_tests false false false hd hr hw =
          ((λ h. cc h), (λ h. elim h.0 [ inl k ↦ hr.1 k | inr k ↦ hw.1 k ]))

module _ (api : TraceApi) (page_size : ℕ) where
  -- The page and the range of bytes of the event overlap; a range without bytes counts as the place at
  -- which it stands.
  abbrev pub Overlaps : BlkTraceEvent → ℕ → Type 0
  Overlaps event p =
      (event.sector * 512 < p * page_size + page_size)
      × (p * page_size < event.sector * 512 + event.bytes)

  -- Some event that reads or writes and discards nothing overlaps the page.
  abbrev pub Touched : List BlkTraceEvent → ℕ → Type 0
  Touched [] p = ⊥
  Touched (event ∷ events) p = (Moves api event × Overlaps event p) ⊎ Touched events p

  Distinct-event :
      (event : BlkTraceEvent) (set : List ℕ)
      → Distinct set
      → Distinct (insert_event api page_size event set)
  unfolding insert_event
  Distinct-event event set h = by_test (counts api event)
    where
      by_test :
          (b : Bool)
          → Distinct (
              if b
              then insert_range
                  (div_ceil (event.sector * 512 + event.bytes) page_size
                    - event.sector * 512 / page_size)
                  (event.sector * 512 / page_size)
                  set
              else set)
      by_test true = Distinct-range _ (event.sector * 512 / page_size) set h
      by_test false = h

  Distinct-touched :
      (events : List BlkTraceEvent) (set : List ℕ)
      → Distinct set
      → Distinct (touched_from api page_size events set)
  unfolding touched_from
  Distinct-touched [] set h = h
  Distinct-touched (event ∷ events) set h =
      Distinct-touched events (insert_event api page_size event set) (Distinct-event event set h)

  module _ (nonzero : 0 < page_size) (p : ℕ) where
    range_iff :
        (event : BlkTraceEvent)
        → let start = event.sector * 512 / page_size in
          let stop = div_ceil (event.sector * 512 + event.bytes) page_size in
          InRange p (stop - start) start ↔ Overlaps event p
    range_iff event =
        let first = from_start page_size nonzero (event.sector * 512) p in
        let last = up_to_end page_size nonzero (event.sector * 512 + event.bytes) p in
        (
          (λ h. (first.0 h.0, last.0 (omega arith))),
          (λ h. (first.1 h.0, omega (arith, first.1 h.0, last.1 h.1))),
        )

    contains-event :
        (event : BlkTraceEvent) (set : List ℕ)
        → (contains p (insert_event api page_size event set) ≡ true)
          ↔ ((Moves api event × Overlaps event p) ⊎ (contains p set ≡ true))
    unfolding insert_event
    contains-event event set = by_test (counts api event) refl
      where
        by_test :
            (b : Bool)
            → counts api event ≡ b
            → (contains p (
                  if b
                  then insert_range
                      (div_ceil (event.sector * 512 + event.bytes) page_size
                        - event.sector * 512 / page_size)
                      (event.sector * 512 / page_size)
                      set
                  else set)
                ≡ true)
              ↔ ((Moves api event × Overlaps event p) ⊎ (contains p set ≡ true))
        by_test true e =
            let (into, back) = contains-range p _ (event.sector * 512 / page_size) set in
            let (there, here) = range_iff event in
            (
              (λ h. elim (into h) [
                | inl r ↦ inl ((counts-Moves api event).0 e, there r)
                | inr c ↦ inr c
              ]),
              (λ h. elim h [ inl o ↦ back (inl (here o.1)) | inr c ↦ back (inr c) ]),
            )
        by_test false e = (
          (λ h. inr h),
          (λ h. elim h [ inl o ↦ cc (e, (counts-Moves api event).1 o.0) | inr c ↦ c ]),
        )

    contains-Touched :
        (events : List BlkTraceEvent) (set : List ℕ)
        → (contains p (touched_from api page_size events set) ≡ true)
          ↔ (Touched events p ⊎ (contains p set ≡ true))
    unfolding touched_from
    contains-Touched [] set = ((λ h. inr h), (λ h. elim h [ inl f ↦ absurd f | inr c ↦ c ]))
    contains-Touched (event ∷ events) set =
        let (into, back) = contains-Touched events (insert_event api page_size event set) in
        let (there, here) = contains-event event set in
        (
          (λ h. elim (into h) [
            | inl later ↦ inl (inr later)
            | inr c ↦ elim (there c) [ inl first ↦ inl (inl first) | inr old ↦ inr old ]
          ]),
          (λ h. elim h [
            | inl t ↦ elim t [
              | inl first ↦ back (inr (here (inl first)))
              | inr later ↦ back (inl later)
            ]
            | inr old ↦ back (inr (here (inr old)))
          ]),
        )

  -- With a size of a page that is not 0, the pages that are migrated after mkfs are exactly those which
  -- overlap the bytes of an event whose action has the flag of a read or of a write and has not the flag
  -- of a discard, and none is migrated twice.
  pub rw_positions-Touched :
      0 < page_size
      → (events : List BlkTraceEvent)
      → ((p : ℕ) → (contains p (rw_positions api page_size events) ≡ true) ↔ Touched events p)
        × Distinct (rw_positions api page_size events)
  unfolding rw_positions
  rw_positions-Touched nonzero events = (
    (λ p.
        let (into, back) = contains-Touched nonzero p events [] in
        ((λ h. elim (into h) [ inl t ↦ t | inr c ↦ cc c ]), (λ t. back (inl t)))),
    Distinct-touched events [] tt,
  )
