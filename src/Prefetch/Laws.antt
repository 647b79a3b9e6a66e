-- ===== src/Prefetch/Laws.antt =====
-- What `Observe` of internal/prefetch/prefetch.go keeps and returns.
use forebay.Prelude.{
  ℕ, zero, suc, ◌≤◌, ◌≡◌, refl, subst, Bool, true, false, not, ◌&&◌, List, [], ◌∷◌, ◌++◌, All,
  length, drop, ◌-◌, arith, inl, inr, Bool-cases,
}
use forebay.Prelude.Int.{ℤ, pos, pos_part, ◌-ℤ◌, ◌≤ℤ◌, ltb_ℤ, leb_ℤ, eqb_ℤ, int_laws}
use forebay.Prelude.Int64.{add64, sub64}
use forebay.Prelude.Text.{Text, text_eq, text_eq_refl}
use forebay.Prefetch.{
  Block, Config, Stream, fresh_stream, Detector, is_predicted, unpredict, read_of, newest,
  record_read, condemn, score, track, ahead, find_stream, drop_stream, is_confirmed, observe_stream,
  stream_or_fresh, observe,
}

-- A stream whose window is within its bound, and that waits for no prediction while it is muted.
pub record IsTidy (cfg : Config) (s : Stream) : Type 0 where
  pub bounded : pos (length s.recent) ≤ℤ cfg.window
  pub quiet : s.muted ≡ true → s.outstanding ≡ []

length-drop : {A : Type 0} (n : ℕ) (xs : List A) → length (drop n xs) ≡ length xs - n
length-drop zero xs = omega arith
length-drop (suc n) [] = omega arith
length-drop (suc n) (x ∷ xs) = omega (arith, length-drop n xs)

newest-length :
    (window : ℤ) (recent : List Bool)
    → pos 1 ≤ℤ window
    → pos (length (newest window recent)) ≤ℤ window
unfolding newest
newest-length window recent h =
    ground (arith, h, length-drop (length recent - pos_part window) recent)

module _ (cfg : Config) (positive : pos 1 ≤ℤ cfg.window) where
  record_read-IsTidy :
      (s : Stream) (read : Bool) → IsTidy cfg s → IsTidy cfg (record_read cfg s read)
  unfolding record_read
  record_read-IsTidy s read t =
      let recent = newest cfg.window (s.recent ++ read ∷ []) in
      let b = newest-length cfg.window (s.recent ++ read ∷ []) positive in
      elim (Bool-cases (ltb_ℤ (pos (length recent)) cfg.window)) [
        | inl short ↦ rw (record_read, short) (record { bounded = b; quiet = t.quiet })
        | inr full ↦ elim (Bool-cases (not s.muted && cfg.below (read_of recent) (length recent))) [
          | inl poor ↦ rw (record_read, full, poor) (record { bounded = b; quiet = λ _. refl })
          | inr fair ↦ rw (record_read, full, fair) (record { bounded = b; quiet = t.quiet })
        ]
      ]

  unpredict-IsTidy :
      (s : Stream) (i : ℤ)
      → IsTidy cfg s
      → IsTidy cfg (record s { outstanding = unpredict i s.outstanding })
  unfolding unpredict
  unpredict-IsTidy s i t = record { bounded = t.bounded; quiet = λ m. rw (t.quiet m) refl }

  condemn-IsTidy :
      (now : ℤ) (os : List (ℤ × ℤ)) (s : Stream) → IsTidy cfg s → IsTidy cfg (condemn cfg now os s)
  unfolding condemn
  condemn-IsTidy now [] s t = t
  condemn-IsTidy now ((i, when) ∷ os) s t = elim (Bool-cases (leb_ℤ cfg.patience (now -ℤ when))) [
    | inl late ↦
        condemn-IsTidy now os _ (rw late (record_read-IsTidy _ false (unpredict-IsTidy s i t)))
    | inr waits ↦ condemn-IsTidy now os _ (rw waits t)
  ]

  score-IsTidy : (s : Stream) (index now : ℤ) → IsTidy cfg s → IsTidy cfg (score cfg s index now)
  unfolding score
  score-IsTidy s index now t = elim (Bool-cases (is_predicted index s.outstanding)) [
    | inl hit ↦
        condemn-IsTidy now _ _ (rw hit (record_read-IsTidy _ true (unpredict-IsTidy s index t)))
    | inr miss ↦ condemn-IsTidy now _ _ (rw miss t)
  ]

  track-IsTidy : (s : Stream) (index : ℤ) → IsTidy cfg s → IsTidy cfg (track cfg s index)
  unfolding track
  track-IsTidy s index t =
      let stride = sub64 index s.last in
      let lifted =
        s.muted
        && not (eqb_ℤ stride s.muted_stride)
        && leb_ℤ cfg.confirmations (add64 (add64 s.runs (pos 1)) (pos 2)) in
      elim (Bool-cases s.started) [
        | inr new_ ↦ rw (track, new_) (record { bounded = t.bounded; quiet = t.quiet })
        | inl old ↦ elim (Bool-cases (eqb_ℤ stride (pos 0))) [
          | inl same ↦ rw (track, old, same) (record { bounded = t.bounded; quiet = t.quiet })
          | inr moved ↦ elim (Bool-cases (eqb_ℤ stride s.stride)) [
            | inr turned ↦
                rw (track, old, moved, turned) (record { bounded = t.bounded; quiet = t.quiet })
            | inl steady ↦ elim (Bool-cases lifted) [
              | inl up ↦
                  rw (track, old, moved, steady, up)
                    (record {
                      bounded = omega (int_laws, positive);
                      quiet = λ m. absurd (ground (arith, m));
                    })
              | inr down ↦
                  rw (track, old, moved, steady, down)
                    (record { bounded = t.bounded; quiet = t.quiet })
            ]
          ]
        ]
      ]

  observe_stream-IsTidy :
      (s : Stream) (b : Block) (now : ℤ) → IsTidy cfg s → IsTidy cfg (observe_stream cfg s b now).0
  unfolding observe_stream
  observe_stream-IsTidy s b now t =
      let u = track cfg (score cfg s b.index now) b.index in
      let v = track-IsTidy (score cfg s b.index now) b.index (score-IsTidy s b.index now t) in
      elim (Bool-cases (is_confirmed cfg u)) [
        | inl yes_ ↦
            rw (observe_stream, yes_)
              (record { bounded = v.bounded; quiet = λ m. absurd (ground (arith, m, yes_)) })
        | inr no_ ↦ rw (observe_stream, no_) v
      ]

-- A detector whose streams are all tidy.
abbrev pub IsTidyDetector : Detector → Type 0
IsTidyDetector d = All (λ x. IsTidy d.cfg x.1) d.streams

find_stream-All :
    (P : Stream → Type 0) (k : Text) (ss : List (Text × Stream))
    → P fresh_stream
    → All (λ x. P x.1) ss
    → P (stream_or_fresh (find_stream k ss))
unfolding find_stream
find_stream-All P k [] f h = f
find_stream-All P k ((j, s) ∷ ss) f h = elim (Bool-cases (text_eq k j)) [
  | inl hit ↦ rw hit (h.0)
  | inr miss ↦ rw miss (find_stream-All P k ss f h.1)
]

drop_stream-All :
    (P : Text × Stream → Type 0) (k : Text) (ss : List (Text × Stream))
    → All P ss
    → All P (drop_stream k ss)
unfolding drop_stream
drop_stream-All P k [] h = tt
drop_stream-All P k ((j, s) ∷ ss) h = elim (Bool-cases (text_eq k j)) [
  | inl hit ↦ rw hit (h.1)
  | inr miss ↦ rw miss (h.0, drop_stream-All P k ss h.1)
]

-- With a positive window, Observe keeps of every stream that its accuracy window is within its
-- bound and that it waits for no prediction while it is muted.
pub observe-IsTidyDetector :
    (d : Detector) (b : Block) (now : ℤ)
    → pos 1 ≤ℤ d.cfg.window
    → IsTidyDetector d
    → IsTidyDetector (observe d b now).0
unfolding observe
observe-IsTidyDetector d b now w h =
    let fresh : IsTidy d.cfg fresh_stream = record {
      bounded = omega (int_laws, w);
      quiet = λ m. refl;
    } in
    let s = find_stream-All (IsTidy d.cfg) b.stream d.streams fresh h in
    (
      observe_stream-IsTidy d.cfg w _ b now s,
      drop_stream-All (λ x. IsTidy d.cfg x.1) b.stream d.streams h,
    )

-- Blocks of one stream, none of which was predicted before, each of which is now, and no two of
-- which are one.
abbrev pub IsNew : Text → List (ℤ × ℤ) → List (ℤ × ℤ) → List Block → Type 0
IsNew name before after [] = Unit
IsNew name before after (o ∷ os) =
    (o.stream ≡ name)
    × (is_predicted o.index before ≡ false)
    × (is_predicted o.index after ≡ true)
    × All (λ p. eqb_ℤ p.index o.index ≡ false) os
    × IsNew name before after os

abbrev Ahead : Text → List (ℤ × ℤ) → ℕ → List Block × List (ℤ × ℤ) → Type 0
Ahead name os n (out, rest) =
    (length out ≤ n)
    × ((i : ℤ) → is_predicted i os ≡ true → is_predicted i rest ≡ true)
    × IsNew name os rest out

IsNew-cons :
    (name : Text) (i t : ℤ) (os rest : List (ℤ × ℤ)) (out : List Block)
    → IsNew name ((i, t) ∷ os) rest out
    → IsNew name os rest out × All (λ p. eqb_ℤ p.index i ≡ false) out
unfolding is_predicted
IsNew-cons name i t os rest [] h = (tt, tt)
IsNew-cons name i t os rest (o ∷ out) h =
    let (a, b) = IsNew-cons name i t os rest out h.4 in
    let (ne, old) : (eqb_ℤ o.index i ≡ false) × (is_predicted o.index os ≡ false) =
      ground (arith, h.1) in
    ((h.0, old, h.2, h.3, a), (ne, b))

eqb_refl : (i : ℤ) → eqb_ℤ i i ≡ true
eqb_refl i = ground arith

ahead-Ahead :
    (name : Text) (now stride from : ℤ) (n : ℕ) (os : List (ℤ × ℤ))
    → Ahead name os n (ahead name now stride from n os)
unfolding ahead is_predicted
ahead-Ahead name now stride from zero os = (omega arith, λ i h. h, tt)
ahead-Ahead name now stride from (suc n) os =
    let next = add64 from stride in
    elim (Bool-cases (is_predicted next os)) [
      | inl already ↦
          let (a, b, c) = ahead-Ahead name now stride next n os in
          rw (ahead, already) (omega (arith, a), b, c)
      | inr new_ ↦
          let (a, b, c) = ahead-Ahead name now stride next n ((next, now) ∷ os) in
          let (d, e) = IsNew-cons name next now os _ _ c in
          let mine = b next (ground (arith, eqb_refl next)) in
          rw (ahead, new_)
            (omega (arith, a), λ i h. b i (ground (arith, h)), (refl, new_, mine, e, d))
    ]

track-outstanding :
    (cfg : Config) (s : Stream) (index : ℤ) → (track cfg s index).outstanding ≡ s.outstanding
unfolding track
track-outstanding cfg s index = ground arith

-- The stream of a name, as the detector has it.
abbrev pub stream_of : Detector → Text → Stream
stream_of d name = stream_or_fresh (find_stream name d.streams)

-- What waits to be read once the read of a block has been judged.
abbrev pub waiting : Detector → Block → ℤ → List (ℤ × ℤ)
waiting d b now = (score d.cfg (stream_of d b.stream) b.index now).outstanding

observe_stream-IsNew :
    (cfg : Config) (s : Stream) (b : Block) (now : ℤ)
    → (length (observe_stream cfg s b now).1 ≤ pos_part cfg.depth)
      × IsNew b.stream
          (score cfg s b.index now).outstanding
          (observe_stream cfg s b now).0.outstanding
          (observe_stream cfg s b now).1
unfolding observe_stream
observe_stream-IsNew cfg s b now =
    let t = track cfg (score cfg s b.index now) b.index in
    elim (Bool-cases (is_confirmed cfg t)) [
      | inr no_ ↦ rw (observe_stream, no_) (omega arith, tt)
      | inl yes_ ↦
          let r = ahead b.stream now t.stride b.index (pos_part cfg.depth) t.outstanding in
          let (a, _, c) =
            ahead-Ahead b.stream now t.stride b.index (pos_part cfg.depth) t.outstanding in
          let same = track-outstanding cfg (score cfg s b.index now) b.index in
          rw (observe_stream, yes_) (a, subst (λ z. IsNew b.stream z r.1 r.0) same c)
    ]

observe-stream_of :
    (d : Detector) (b : Block) (now : ℤ)
    → stream_of (observe d b now).0 b.stream ≡ (observe_stream d.cfg (stream_of d b.stream) b now).0
unfolding observe find_stream
observe-stream_of d b now = rw (text_eq_refl b.stream) refl

observe-blocks :
    (d : Detector) (b : Block) (now : ℤ)
    → (observe d b now).1 ≡ (observe_stream d.cfg (stream_of d b.stream) b now).1
unfolding observe
observe-blocks d b now = refl

-- Observe returns at most as many blocks as the depth, all of the stream of the read, none of
-- which still waited to be read, each of which waits afterwards, and no two of which are one, even
-- where the index wraps.
pub observe-IsNew :
    (d : Detector) (b : Block) (now : ℤ)
    → (length (observe d b now).1 ≤ pos_part d.cfg.depth)
      × IsNew b.stream
          (waiting d b now)
          (stream_of (observe d b now).0 b.stream).outstanding
          (observe d b now).1
observe-IsNew d b now =
    rw (observe-stream_of d b now, observe-blocks d b now)
      (observe_stream-IsNew d.cfg (stream_of d b.stream) b now)
