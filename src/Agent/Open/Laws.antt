-- ===== src/Agent/Open/Laws.antt =====
-- What stands once `Open` of internal/agent/agent.go has returned an agent.
use forebay.Prelude.{
  ℕ, ◌<◌, ◌≡◌, refl, ap, sym, ◌∙◌, true, false, ◌&&◌, Option, none, some, [], if◌then◌else◌, arith,
  inl, inr, Bool-cases, Option-cases,
}
use forebay.Prelude.Int.{ℤ, pos}
use forebay.Prelude.Text.{Text, text_eq, text_eq→eq}
use forebay.Lease.Types
use forebay.Lease.Types.{Lease, Manager, Result}
use forebay.Lease.Table.{lookup}
use forebay.Lease.Invariant.{IsSound}
use forebay.Lease.Restore.{restore}
use forebay.Agent.Names.{
  IsName, has_prefix, has_suffix, agent_file_prefix, invalid_suffix, lock_name, heartbeat_name,
}
use forebay.Agent.Files.{Files, Os, find_file, drop_file, put_file}
use forebay.Agent.Files.Laws.{find_file-drop_ne, find_file-put_ne}
use forebay.Agent.Extent.{Agent}
use forebay.Agent.Reconcile.{Reconciliation, reconcile}
use forebay.Agent.Reconcile.Sweeping.{is_own}
use forebay.Agent.Reconcile.Laws.{reconcile-Agrees}
use forebay.Agent.Pressure.{heartbeat}
use forebay.Agent.Pressure.Laws.{heartbeat-same, IsName-own}
use forebay.Agent.Residual.{Reader, Scan, clean_extent, dirty_at, stopped_at, scan_zeros}
use forebay.Agent.Residual.Laws.{byte_at, Reads, scan_zeros-clean_iff}
use forebay.Agent.Open.{
  probe_name, probe_size, has_file, scan_error, verify_pool, Start, is_recoverable, opened,
  settle_in, open_agent,
}

has_suffix-probe : has_suffix probe_name invalid_suffix ≡ true
unfolding has_suffix text_eq
has_suffix-probe = refl

-- A name that ends as a discarded extent does is the name of no lease.
IsName-probe : (j : Text) → IsName j → text_eq j probe_name ≡ false
IsName-probe j n = elim (Bool-cases (text_eq j probe_name)) [
  | inr off ↦ off
  | inl same ↦ absurd (ground (arith, has_suffix-probe, n.lasting, text_eq→eq j probe_name same))
]

-- The probe leaves the files of every other name that does not end as its own.
verify_pool-find_file :
    (os : Os) (fresh : Reader) (files : Files) (j : Text)
    → text_eq j probe_name ≡ false
    → find_file j (verify_pool os fresh files).0 ≡ find_file j files
unfolding verify_pool
verify_pool-find_file os fresh files j off =
    let cleared = drop_file probe_name files in
    let probed = put_file probe_name (pos 0) cleared in
    let a : find_file j cleared ≡ find_file j files = find_file-drop_ne j probe_name files off in
    let b : find_file j probed ≡ find_file j files =
      find_file-put_ne j probe_name (pos 0) cleared off ∙ a in
    let c : find_file j (drop_file probe_name probed) ≡ find_file j files =
      find_file-drop_ne j probe_name probed off ∙ b in
    elim (Bool-cases (has_file probe_name files && os.remove_fails probe_name)) [
      | inl stuck ↦ rw (verify_pool, stuck) refl
      | inr free ↦ elim (Bool-cases (os.open_fails probe_name)) [
        | inl e ↦ rw (verify_pool, free, e) a
        | inr e ↦ elim (Bool-cases (os.reserve_fails probe_name)) [
          | inl f ↦ elim (Bool-cases (os.remove_fails probe_name)) [
            | inl g ↦ rw (verify_pool, free, e, f, g) b
            | inr g ↦ rw (verify_pool, free, e, f, g) c
          ]
          | inr f ↦ elim (Bool-cases (os.remove_fails probe_name)) [
            | inl g ↦ rw (verify_pool, free, e, f, g) b
            | inr g ↦ rw (verify_pool, free, e, f, g) c
          ]
        ]
      ]
    ]

scan_error-none : (s : Scan) → scan_error s ≡ none → s ≡ clean_extent
unfolding scan_error
scan_error-none clean_extent h = refl
scan_error-none (dirty_at i b) h = absurd (ground (arith, h))
scan_error-none (stopped_at i) h = absurd (ground (arith, h))

-- The pool passes only where the fresh extent that was read is clean.
verify_pool-clean :
    (os : Os) (fresh : Reader) (files : Files)
    → (verify_pool os fresh files).1 ≡ none
    → scan_zeros fresh probe_size ≡ clean_extent
unfolding verify_pool
verify_pool-clean os fresh files h =
    scan_error-none (scan_zeros fresh probe_size) (ground (arith, h))

IsName-is_own : (j : Text) → IsName j → is_own j ≡ false
unfolding has_prefix text_eq
IsName-is_own j n =
    ground (arith, IsName-own j lock_name n refl, IsName-own j heartbeat_name n refl)

module _ {Disk : Type 0} where
  -- The leases and the files of one agent, where names of the agent's own are left aside.
  pub record IsReady (a : Agent Disk) : Type 0 where
    pub extents :
        (id : Text) (l : Lease)
        → IsName id
        → lookup id a.leases.leases ≡ some l
        → (n : ℤ) × (find_file id a.files ≡ some n)
    pub leased :
        (name : Text) (n : ℤ)
        → IsName name
        → find_file name a.files ≡ some n
        → (l : Lease) × (lookup name a.leases.leases ≡ some l)

  -- What a start that ends with an agent went through.
  abbrev Settles : Os → Start → Agent Disk → Agent Disk → Type 0
  Settles os start a c =
      let b = (reconcile os start.unreadable a).0 in
      let d = (heartbeat os start.temporary b).0 in
      ((reconcile os start.unreadable a).2 ≡ none)
      × ((verify_pool os start.fresh d.files).1 ≡ none)
      × (c.leases ≡ d.leases)
      × (c.files ≡ (verify_pool os start.fresh d.files).0)

  settle_in-Settles :
      (os : Os) (start : Start) (a c : Agent Disk) (restored res : Result) (rec : Reconciliation)
      (e f : Option Types.Error)
      → settle_in os start a restored e ≡ opened c res rec f
      → Settles os start a c
  unfolding settle_in
  settle_in-Settles os start a c restored res rec e f h =
      let b = (reconcile os start.unreadable a).0 in
      let d = (heartbeat os start.temporary b).0 in
      elim (Option-cases ((heartbeat os start.temporary b).1)) [
        | inr (x, bad) ↦ absurd (ground (arith, h, bad))
        | inl beat ↦ elim (Option-cases ((reconcile os start.unreadable a).2)) [
          | inr (x, bad) ↦ absurd (ground (arith, h, beat, bad))
          | inl agreed ↦ elim (Option-cases ((verify_pool os start.fresh d.files).1)) [
            | inr (x, bad) ↦ absurd (ground (arith, h, beat, agreed, bad))
            | inl clean ↦
                let same : record d { files = (verify_pool os start.fresh d.files).0 } ≡ c =
                  ground (arith, h, beat, agreed, clean) in
                (agreed, clean, ap (λ z. z.leases) (sym same), ap (λ z. z.files) (sym same))
          ]
        ]
      ]

  Settles-IsReady :
      (os : Os) (start : Start) (a c : Agent Disk)
      → has_prefix start.temporary agent_file_prefix ≡ true
      → IsSound a.leases
      → Settles os start a c
      → IsReady c
  Settles-IsReady os start a c t s (agreed, clean, leases, files) =
      let b = (reconcile os start.unreadable a).0 in
      let d = (heartbeat os start.temporary b).0 in
      let agrees = reconcile-Agrees os a s start.unreadable agreed in
      let (beat_leases, beat_files) = heartbeat-same os start.temporary b t in
      let books : c.leases ≡ b.leases = leases ∙ beat_leases in
      let disk : (j : Text) → IsName j → find_file j c.files ≡ find_file j b.files = λ j n.
        ap (find_file j) files
        ∙ verify_pool-find_file os start.fresh d.files j (IsName-probe j n)
        ∙ beat_files j n in
      record {
        extents = λ id l n held.
            let (size, e) = agrees.extents id l (ap (λ z. lookup id z.leases) (sym books) ∙ held) in
            (size, disk id n ∙ e);
        leased = λ name size n there. elim (agrees.leased name size (sym (disk name n) ∙ there)) [
          | inl own ↦ absurd (ground (arith, own, IsName-is_own name n))
          | inr (l, e) ↦ (l, ap (λ z. lookup name z.leases) books ∙ e)
        ];
      }

  -- The agent that `Open` makes once the pool is locked.
  abbrev starting : Manager Disk → Files → ℤ → Agent Disk
  starting m files now = record {
    leases = (restore m now).0;
    files = if has_file lock_name files then files else put_file lock_name (pos 0) files;
    granted_fn = false;
    releasing_fn = false;
    told = [];
  }

  open_agent-settle_in :
      (os : Os) (start : Start) (m : Manager Disk) (files : Files) (now : ℤ) (c : Agent Disk)
      (res : Result) (rec : Reconciliation) (e : Option Types.Error)
      → open_agent os start m files now ≡ opened c res rec e
      → settle_in os start (starting m files now) (restore m now).1 (restore m now).2
        ≡ opened c res rec e
  unfolding open_agent
  open_agent-settle_in os start m files now c res rec e h = elim (Option-cases start.layout) [
    | inr (x, bad) ↦ absurd (ground (arith, h, bad))
    | inl fine ↦ elim (Bool-cases start.mkdir_fails) [
      | inl bad ↦ absurd (ground (arith, h, fine, bad))
      | inr made ↦ elim (Bool-cases (os.open_fails lock_name)) [
        | inl bad ↦ absurd (ground (arith, h, fine, made, bad))
        | inr opens ↦ elim (Bool-cases start.is_locked) [
          | inl bad ↦ absurd (ground (arith, h, fine, made, opens, bad))
          | inr free ↦ elim (Bool-cases (is_recoverable (restore m now).2)) [
            | inl ok ↦ ground (arith, h, fine, made, opens, free, ok)
            | inr not_ok ↦ elim (Option-cases ((restore m now).2)) [
              | inl none_ ↦ ground (arith, h, fine, made, opens, free, not_ok, none_)
              | inr (x, bad) ↦ absurd (ground (arith, h, fine, made, opens, free, not_ok, bad))
            ]
          ]
        ]
      ]
    ]
  ]

  -- Where Open returns an agent, among names that a lease may have it holds exactly the leases
  -- whose extents are in the pool, and every byte of the fresh extent that the probe read is zero,
  -- provided that the replayed manager is sound, the heartbeat's temporary name starts as asked
  -- for and the reader gives what the probe holds.
  pub open_agent-IsReady :
      (os : Os) (start : Start) (m : Manager Disk) (files : Files) (now : ℤ) (c : Agent Disk)
      (res : Result) (rec : Reconciliation) (e : Option Types.Error) (probe : Text)
      → has_prefix start.temporary agent_file_prefix ≡ true
      → Reads probe start.fresh
      → IsSound (restore m now).0
      → open_agent os start m files now ≡ opened c res rec e
      → IsReady c × ((i : ℕ) → i < probe_size → byte_at probe i ≡ some 0)
  open_agent-IsReady os start m files now c res rec e probe t reads s h =
      let settled = open_agent-settle_in os start m files now c res rec e h in
      let (agreed, clean, leases, books) =
        settle_in-Settles os start (starting m files now) c (restore m now).1 res rec
          (restore m now).2 e settled in
      let zeros = scan_zeros-clean_iff probe start.fresh reads probe_size in
      (
        Settles-IsReady os start (starting m files now) c t s (agreed, clean, leases, books),
        zeros.0 (verify_pool-clean os start.fresh _ clean),
      )
