-- ===== src/Telemetry.antt =====
-- The samples of cameras: `Cameras` of telemetry/telemetry.go, and `clampSample` of app/supervisor.go.
-- CPU percents are counted in millionths, without rounding;
-- the counters of bytes and requests are left out.
use mock_vision.Prelude.{
  ℕ, ◌-◌, ◌*◌, ◌/◌, ◌≤◌, String, List, [], ◌∷◌, ◌++◌, Option, none, some, arith, ltb, min, max,
  length, drop, filter, length-drop, if◌then◌else◌, All,
}
use mock_vision.Prelude.Int.{ℤ, pos, pos_part}
use mock_vision.Prelude.Equality.{string_eq}
use mock_vision.Prelude.GoMap.{GoMap, get, put, del, All-put, All-del}

abbrev pub second : ℕ
second = 1_000_000_000

-- In nanoseconds: 10 minutes.
abbrev pub retention : ℕ
retention = 600 * second

abbrev pub max_samples : ℕ
max_samples = retention / second

pub record CameraSample : Type 0 where
  pub at : ℕ
  pub cpu_percent : ℤ
  pub rss_bytes : ℕ
  pub clients : ℤ

pub record Cameras : Type 0 where
  pub by_id : GoMap String (List CameraSample)

abbrev pub or_empty : Option (List CameraSample) → List CameraSample
or_empty none = []
or_empty (some l) = l

-- Less the samples at the front that are older than the retention.
unfoldable pub drop_old : ℕ → List CameraSample → List CameraSample
drop_old now [] = []
drop_old now (s ∷ ss) =
    let rest = drop_old now ss in if ltb retention (now - s.at) then rest else s ∷ ss

abbrev pub keep_newest : List CameraSample → List CameraSample
keep_newest l = drop (length l - max_samples) l

-- `Add`
unfoldable pub add_sample : String → CameraSample → Cameras → Cameras
unfolding drop_old
add_sample id s c = record {
  by_id = put id (keep_newest (drop_old s.at (or_empty (get id c.by_id) ++ s ∷ []))) c.by_id;
}

abbrev last_of : List CameraSample → Option CameraSample
last_of [] = none
last_of (s ∷ []) = some s
last_of (s ∷ t ∷ ss) = last_of (t ∷ ss)

-- `Latest`
unfoldable pub latest : String → Cameras → Option CameraSample
latest id c = last_of (or_empty (get id c.by_id))

-- `History`
unfoldable pub history : String → ℕ → Cameras → List CameraSample
history id since c = filter (λ s. ltb since s.at) (or_empty (get id c.by_id))

-- `Remove`
unfoldable pub remove : String → Cameras → Cameras
remove id c = record { by_id = del id c.by_id }

-- `clampSample`, with the processors and the memory of the node.
unfoldable pub clamp_sample : ℕ → ℕ → CameraSample → CameraSample
clamp_sample cpu_count total s = record s {
  cpu_percent = pos (min (pos_part s.cpu_percent) (100 * max cpu_count 1 * 1_000_000));
  rss_bytes = if ltb 0 total then min s.rss_bytes total else s.rss_bytes;
  clients = pos (pos_part s.clients);
}

-- A camera keeps at most one sample for each second of the retention.
abbrev pub IsKept : String × List CameraSample → Type 0
IsKept e = length e.1 ≤ max_samples

length-keep_newest : (l : List CameraSample) → length (keep_newest l) ≤ max_samples
length-keep_newest l = omega (arith, length-drop (length l - max_samples) l)

-- Recording a sample, whenever it comes, keeps every camera at 600 samples at most.
pub add_sample-IsKept :
    (id : String) (s : CameraSample) (c : Cameras)
    → All IsKept c.by_id
    → All IsKept (add_sample id s c).by_id
unfolding add_sample
add_sample-IsKept id s c h =
    All-put IsKept id _ c.by_id
      (length-keep_newest (drop_old s.at (or_empty (get id c.by_id) ++ s ∷ []))) h

-- Forgetting a camera keeps the others at 600 samples at most.
pub remove-IsKept :
    (id : String) (c : Cameras) → All IsKept c.by_id → All IsKept (remove id c).by_id
unfolding remove
remove-IsKept id c h = All-del IsKept id c.by_id h
