-- ===== src/Config/Tests.antt =====
-- The configuration module on small inputs.
use lakta.Prelude.{
  map, length, ℕ, ◌+◌, ◌≡◌, refl, String, true, false, none, some, List, [], ◌∷◌, ◌++◌, arith, leb,
  if◌then◌else◌, Result, ok, err, ◌==◌, text_keyed,
}
use lakta.Config.Reload.{
  Call, Layer, file, env, flags, ConfigModule, cascade, load_files, load_env, load_flags,
  validate_all, run_callbacks, reload,
}
use lakta.Config.Reload.Atomic.{count_up, Whole, reload-Whole, reload_accepted}
use lakta.Config.Keys.{parse_flag, cut, cut_prefix, module_path, dot}
use lakta.Config.Keys.RoundTrip.{encode}
use lakta.Config.Init.{set_flag, set_flags, parse_args, load_cli_flags, init}
use lakta.Config.Init.Replay.{files_and_env, left_over, init-cascade}
use lakta.Config.Watch.{done, fresh, fire, step, watch_loop}
use lakta.Config.Watch.Debounce.{burst, last_of, watch_loop-burst}
use lakta.Config.Files.{FileName, base, overlay, discover_config_files}
use lakta.Config.Files.Cascade.{keep, candidates, discover_config_files-keep}

-- A koanf as the list of the layers that it was loaded from; one file cannot be parsed.
abbrev load : Layer → List Layer → Result String (List Layer)
load (file path) k = if path == "bad.yaml" then err "syntax" else ok (k ++ file path ∷ [])
load (env prefix) k = ok (k ++ env prefix ∷ [])
load flags k = ok (k ++ flags ∷ [])

abbrev sample : ConfigModule (List Layer)
sample = record {
  env_prefix = "LAKTA_";
  config_files = "lakta.yaml" ∷ [];
  has_flag_set = true;
  koanf = [];
  on_reload = (λ k. true) ∷ (λ k. false) ∷ [];
  on_validate = (λ k. none) ∷ [];
}

abbrev loaded : List Layer
loaded = file "lakta.yaml" ∷ env "LAKTA_" ∷ flags ∷ []

reload_program : Unit {0}
unfolding reload cascade load_files load_env load_flags validate_all run_callbacks
reload_program = tt

cascade-sample : cascade [] load sample ≡ ok loaded
unfolding reload_program
cascade-sample = refl

reload-sample : reload [] load sample ≡ (
  record sample { koanf = loaded },
  none,
  record { callback = 0; handed = loaded; panicked = true }
      ∷ record { callback = 1; handed = loaded; panicked = false }
      ∷ [],
)
unfolding reload_program
reload-sample = refl

reload-Whole_example : Whole [] load sample (reload [] load sample)
reload-Whole_example = reload-Whole [] load sample

reload_accepted_example :
    ((reload [] load sample).1 ≡ none)
    × ((reload [] load sample).0 ≡ record sample { koanf = loaded })
    × (map (λ (c : Call (List Layer)). c.handed) (reload [] load sample).2
        ≡ map (λ fn. loaded) sample.on_reload)
    × (map (λ (c : Call (List Layer)). c.callback) (reload [] load sample).2
        ≡ count_up 0 (length sample.on_reload))
reload_accepted_example = reload_accepted [] load sample loaded cascade-sample (refl, tt)

-- db.max_conns
abbrev key : List ℕ
key = b'd' ∷ b'b' ∷ dot ∷ b'm' ∷ b'a' ∷ b'x' ∷ b'_' ∷ b'c' ∷ b'o' ∷ b'n' ∷ b'n' ∷ b's' ∷ []

env_name :
    encode key
    ≡ b'D' ∷ b'B' ∷ b'_' ∷ b'_' ∷ b'M' ∷ b'A' ∷ b'X' ∷ b'_' ∷ b'C' ∷ b'O' ∷ b'N' ∷ b'N' ∷ b'S' ∷ []
unfolding encode
env_name = refl

abbrev arg : List ℕ
arg = b'-' ∷ b'-' ∷ b'a' ∷ b'=' ∷ b'b' ∷ b'=' ∷ []

module_path_default :
    module_path (b'm' ∷ []) (b'd' ∷ []) (b'g' ∷ []) (b's' ∷ []) []
    ≡ b'm' ∷ dot ∷ b'g' ∷ dot ∷ b's' ∷ dot ∷ b'd' ∷ []
unfolding module_path
module_path_default = refl

abbrev changes : List ℕ
changes = 1050 ∷ 1120 ∷ []

watch_loop-burst_example :
    ((fire 1300 (watch_loop 100 (burst (1000 ∷ changes)) fresh)).reloads
      ≡ (if leb (last_of 1000 changes + 100) 1300 then (last_of 1000 changes + 100) ∷ [] else []))
    × ((fire 2000 (step 100 1300 done (watch_loop 100 (burst (1000 ∷ changes)) fresh))).reloads
        ≡ (if leb (last_of 1000 changes + 100) 1300 then (last_of 1000 changes + 100) ∷ [] else []))
watch_loop-burst_example = watch_loop-burst 100 1000 changes 1300 2000 (omega arith) (omega arith)

abbrev join : String → FileName → String
join dir (base f) = dir
join dir (overlay p f) = p

discover_config_files-keep_example :
    discover_config_files join (λ p. p == "prod") (some "prod") ("." ∷ [])
    ≡ keep (λ f. f.path == "prod") (candidates join (λ p. p == "prod") (some "prod") ("." ∷ []))
discover_config_files-keep_example =
    discover_config_files-keep join (λ p. p == "prod") (some "prod") ("." ∷ [])

-- A key that is set by itself is an `env` layer with a value; the arguments are left over.
abbrev parse : List Layer → List (List ℕ) → Result String (List (List ℕ))
parse k args = ok args

abbrev set_key : List ℕ → List ℕ → List Layer → Result String (List Layer)
set_key name v k = ok (k ++ env "set" ∷ [])

abbrev new_module : ConfigModule (List Layer)
new_module = record sample { config_files = []; has_flag_set = false }

abbrev initialized : ConfigModule (List Layer)
initialized = record sample { koanf = file "lakta.yaml" ∷ env "LAKTA_" ∷ flags ∷ env "set" ∷ [] }

init_program : Unit {0}
unfolding reload_program init load_cli_flags parse_args set_flags set_flag parse_flag cut cut_prefix
init_program = tt

init-sample :
    init [] load parse set_key (some (arg ∷ [])) ("lakta.yaml" ∷ []) new_module ≡ ok initialized
unfolding init_program
init-sample = refl

init-cascade_example :
    (rest : List (List ℕ)) × (k₀ k₂ : List Layer) × (files_and_env [] load parse set_key
        ("lakta.yaml" ∷ [])
        new_module.env_prefix
      ≡ ok k₂)
    × (left_over [] load parse set_key (some (arg ∷ [])) k₂ ≡ ok rest)
    × (cascade [] load initialized ≡ ok k₀)
    × (set_flags [] load parse set_key rest k₀ ≡ ok initialized.koanf)
init-cascade_example =
    init-cascade [] load parse set_key (some (arg ∷ [])) ("lakta.yaml" ∷ []) new_module initialized
      refl init-sample

-- A key that was set by itself is gone after a reload.
reload_loses : (reload [] load initialized).0.koanf ≡ loaded
unfolding reload_program
reload_loses = refl
