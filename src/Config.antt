-- ===== src/Config.antt =====
-- internal/config/paths.go: the names of instances and the paths of their files. What the environment
-- answers, and filepath.Join, are parameters.
use text.Mathlib.Text.{◌==◌ as str_eq}
use Prim.Native.String.{◌++◌}
use jobsd.Common.{
  ℕ, ◌==◌, leb, Bool, false, not, ◌&&◌, ◌||◌, Option, none, some, List, [], ◌∷◌, String,
  if◌then◌else◌,
}
use jobsd.Common.Text.{Runes, runes, is_empty}
use jobsd.Result.{system, invalid, Result, ok, err, ◌>>=◌, ◌>>◌, refuse_if}

pub record Paths : Type 0 where
  pub instance_name : String
  pub data_dir : String
  pub runtime_dir : String
  pub database_path : String
  pub lock_path : String
  pub state_path : String

-- The variables, empty if they are not set; os.UserHomeDir; os.TempDir; the Uid of user.Current,
-- empty if it fails; and filepath.Join.
pub record Places : Type 0 where
  pub xdg_data_home : String
  pub user_home_dir : Option String
  pub xdg_runtime_dir : String
  pub temp_dir : String
  pub uid : String
  pub join : List String → String

-- strings.ContainsAny at the two path separators
unfoldable pub has_separator : Runes → Bool
has_separator [] = false
has_separator (c ∷ s) = (c == b'/') || (c == 92) || has_separator s

abbrev pub is_name_char : ℕ → Bool
is_name_char c =
    (leb b'A' c && leb c b'Z')
    || (leb b'a' c && leb c b'z')
    || (leb b'0' c && leb c b'9')
    || c == b'.'
    || c == b'_'
    || c == b'-'

-- instanceNamePattern
unfoldable pub matches_pattern : Runes → Bool
matches_pattern [] = false
matches_pattern (c ∷ s) = is_name_char c && (is_empty s || matches_pattern s)

unfoldable pub validate_instance_name : String → Result (Unit {0})
unfolding has_separator matches_pattern
validate_instance_name name = do
  refuse_if (str_eq name "") (invalid "instance name is required")
  refuse_if (has_separator (runes name)) (invalid "instance name must not contain path separators")
  refuse_if (not (matches_pattern (runes name))) (invalid "instance name must match")

abbrev pub or_system : Option String → Result String
or_system none = err system
or_system (some s) = ok s

module _ (places : Places) where
  unfoldable pub resolve_data_base_dir : Result String
  resolve_data_base_dir =
      if not (str_eq places.xdg_data_home "")
      then ok (places.join (places.xdg_data_home ∷ "jobsd" ∷ []))
      else or_system places.user_home_dir >>= λ home.
          ok (places.join (home ∷ ".local" ∷ "share" ∷ "jobsd" ∷ []))

  unfoldable pub current_user_id : String
  current_user_id = if str_eq places.uid "" then "0" else places.uid

  unfoldable pub resolve_runtime_base_dir : String
  unfolding current_user_id
  resolve_runtime_base_dir =
      if not (str_eq places.xdg_runtime_dir "")
      then places.join (places.xdg_runtime_dir ∷ "jobsd" ∷ [])
      else places.join (places.temp_dir ∷ ("jobsd-" ++ current_user_id) ∷ [])

  unfoldable pub resolve_paths : String → Result Paths
  unfolding validate_instance_name resolve_data_base_dir resolve_runtime_base_dir
  resolve_paths name = do
    validate_instance_name name
    data_base ← resolve_data_base_dir
    let runtime_base = resolve_runtime_base_dir
    let data_dir = places.join (data_base ∷ "instances" ∷ name ∷ [])
    let runtime_dir = places.join (runtime_base ∷ name ∷ [])
    ok (record {
      instance_name = name;
      data_dir = data_dir;
      runtime_dir = runtime_dir;
      database_path = places.join (data_dir ∷ "jobs.db" ∷ []);
      lock_path = places.join (runtime_base ∷ (name ++ ".lock") ∷ []);
      state_path = places.join (runtime_dir ∷ "state.json" ∷ []);
    })
