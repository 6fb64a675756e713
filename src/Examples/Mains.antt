-- ===== src/Examples/Mains.antt =====
-- The main functions of src/examples: the configuration is read, the globals of the program and the
-- settings of `MaiterKernel` are set from it, and the job runs with them (`RunMaiter`). The numbers of the
-- settings are a type `Real`, and `unset` is what stands in the memory before.
use maiter_p.Base.{ℕ, Option, List, [], ◌∷◌, Run, ok, ◌>>=◌}
use maiter_p.Util.Config.{Conf, loadconfig}
use maiter_p.Maiter.Settings.{Settings, configure, get_config_option_long}

-- `SHORTESTPATH`
abbrev pub source_option : List ℕ
source_option = 83 ∷ 72 ∷ 79 ∷ 82 ∷ 84 ∷ 69 ∷ 83 ∷ 84 ∷ 80 ∷ 65 ∷ 84 ∷ 72 ∷ []

-- `katz_source`
abbrev pub katz_source_option : List ℕ
katz_source_option = 107 ∷ 97 ∷ 116 ∷ 122 ∷ 95 ∷ 115 ∷ 111 ∷ 117 ∷ 114 ∷ 99 ∷ 101 ∷ []

-- `katz_beta`
abbrev pub katz_beta_option : List ℕ
katz_beta_option = 107 ∷ 97 ∷ 116 ∷ 122 ∷ 95 ∷ 98 ∷ 101 ∷ 116 ∷ 97 ∷ []

-- `shards`
abbrev pub shards_option : List ℕ
shards_option = 115 ∷ 104 ∷ 97 ∷ 114 ∷ 100 ∷ 115 ∷ []

-- The globals of src/examples/katz.cpp; `katz_beta` is a double.
pub record KatzGlobals {ℓ} (Real : Type ℓ) : Type ℓ where
  pub katz_source : ℕ
  pub katz_beta : Real
  pub shards : ℕ

-- The globals of src/examples/adsorption.cpp.
pub record AdsorptionGlobals {ℓ} (Real : Type ℓ) : Type ℓ where
  pub adsorption_starts : ℕ
  pub adsorption_damping : Real

module _ {ℓ} {Real : Type ℓ} (zero_r one_r : Real) (of_nat : ℕ → Real) (atof : List ℕ → Real)
    (unset : Settings Real) where
  -- `maiter_init`, and the constructor of `MaiterKernel`.
  unfoldable pub maiter_init : Option (List (List ℕ)) → Run (Conf × Settings Real)
  unfolding loadconfig configure
  maiter_init config = do
    conf ← loadconfig config
    ok (conf, configure zero_r one_r atof conf unset)

  -- `Shortestpath`: the settings, and `shortestpath_source`.
  unfoldable pub shortestpath_main : Option (List (List ℕ)) → Run (Settings Real × ℕ)
  unfolding maiter_init get_config_option_long
  shortestpath_main config = do
    (conf, settings) ← maiter_init config
    ok (settings, get_config_option_long conf source_option 0)

  -- `Katz`: the result of `get_config_option_long` is a `uint64_t`.
  unfoldable pub katz_main : Option (List (List ℕ)) → Run (Settings Real × KatzGlobals Real)
  unfolding maiter_init get_config_option_long
  katz_main config = do
    (conf, settings) ← maiter_init config
    let katz_source = get_config_option_long conf katz_source_option 0
    let katz_beta = of_nat (get_config_option_long conf katz_beta_option 0)
    let shards = get_config_option_long conf shards_option 0
    ok (settings, record { katz_source = katz_source; katz_beta = katz_beta; shards = shards })

  -- `Adsorption` leaves its globals at 0.
  unfoldable pub adsorption_main :
      Option (List (List ℕ)) → Run (Settings Real × AdsorptionGlobals Real)
  unfolding maiter_init
  adsorption_main config = do
    (conf, settings) ← maiter_init config
    ok (settings, record { adsorption_starts = 0; adsorption_damping = zero_r })

  -- `Pagerank`
  unfoldable pub pagerank_main : Option (List (List ℕ)) → Run (Settings Real)
  unfolding maiter_init
  pagerank_main config = do (conf, settings) ← maiter_init config; ok settings
