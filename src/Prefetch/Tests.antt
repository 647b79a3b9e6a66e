-- ===== src/Prefetch/Tests.antt =====
-- A detector on a steady stream, and the theorems about it applied there.
use forebay.Prelude.{◌+◌, ◌≤◌, ◌≡◌, refl, true, false, [], ◌∷◌, length, leb, arith}
use forebay.Prelude.Int.{pos, ◌-ℤ◌}
use forebay.Prelude.Int64.{add64, sub64}
use forebay.Prelude.Text.{bytes, text_eq}
use forebay.Prefetch.{
  Block, Config, Stream, Detector, observe, observe_stream, track, score, condemn, is_predicted,
  find_stream, ahead,
}
use forebay.Prefetch.Laws.{
  IsTidyDetector, observe-IsTidyDetector, IsNew, observe-IsNew, stream_of, waiting,
}

abbrev cfg : Config
cfg = record {
  depth = pos 2;
  confirmations = pos 3;
  window = pos 4;
  patience = pos 60;
  below = λ read judged. leb (read + read) judged;
  is_share = true;
}

-- A reader that has read blocks 1 and 2, and for which block 5 was predicted.
abbrev reading : Stream
reading = record {
  last = pos 2;
  stride = pos 1;
  runs = pos 0;
  started = true;
  outstanding = (pos 5, pos 90) ∷ [];
  recent = true ∷ false ∷ [];
  muted = false;
  muted_stride = pos 0;
}

abbrev detector : Detector
detector = record { cfg = cfg; streams = (bytes "epoch", reading) ∷ [] }

abbrev third : Block
third = record { stream = bytes "epoch"; index = pos 3 }

-- The third read confirms the stride, and the block that is waited for is not asked for again.
asks_ahead :
    (observe detector third (pos 100)).1 ≡ record { stream = bytes "epoch"; index = pos 4 } ∷ []
unfolding observe observe_stream track score condemn is_predicted find_stream text_eq ◌-ℤ◌ sub64
    add64 ahead
asks_ahead = refl

observe-IsTidyDetector_example : IsTidyDetector (observe detector third (pos 100)).0
observe-IsTidyDetector_example =
    observe-IsTidyDetector detector third (pos 100) (omega arith)
      (record { bounded = omega arith; quiet = λ m. absurd (ground (arith, m)) }, tt)

observe-IsNew_example :
    (length (observe detector third (pos 100)).1 ≤ 2)
    × IsNew
        (bytes "epoch")
        (waiting detector third (pos 100))
        (stream_of (observe detector third (pos 100)).0 (bytes "epoch")).outstanding
        (observe detector third (pos 100)).1
observe-IsNew_example = observe-IsNew detector third (pos 100)
