-- ===== src/Params/Given.antt =====
-- `initialize_parameters` of src/utils.c against the settings on the command line.
use Prim.Native.String.{String}
use aca_bsim.Common.{◌≡◌, refl, List, [], ◌∷◌, some, ok}
use aca_bsim.Common.Int.{ℤ}
use aca_bsim.Platform.{Platform}
use aca_bsim.Platform.Options.{
  simulation_time, disability_prob, robot_boost_coff, p1_dest_prob, error_per_act_prob, Store,
  set_int, set_double, CFlag, CFlagLaws, find_flag, Asks, asks_nothing, asks_int, asks_double,
}
use aca_bsim.Params.{
  SimParam, options, print_simulation_params, store_option, store_options, initialize_parameters,
}

-- An option with the text of its value, and the value that this text stands for.
pub data Setting (p : Platform) : Type 0 where
  time_is : String → ℤ → Setting p
  disability_is boost_is p1_is error_is : String → p.Double → Setting p

module _ {p : Platform} where
  -- The text is read as that value.
  abbrev pub IsRead : CFlag p → Setting p → Type 0
  IsRead c (time_is s n) = c.read_int s ≡ some n
  IsRead c (disability_is s x) = c.read_double s ≡ some x
  IsRead c (boost_is s x) = c.read_double s ≡ some x
  IsRead c (p1_is s x) = c.read_double s ≡ some x
  IsRead c (error_is s x) = c.read_double s ≡ some x

  abbrev pub AllRead : CFlag p → List (Setting p) → Type 0
  AllRead c [] = Unit
  AllRead c (s ∷ settings) = IsRead c s × AllRead c settings

  -- The words of the command line.
  abbrev pub words_of : List (Setting p) → List String
  words_of [] = []
  words_of (time_is s n ∷ settings) = "-T" ∷ s ∷ words_of settings
  words_of (disability_is s x ∷ settings) = "-X" ∷ s ∷ words_of settings
  words_of (boost_is s x ∷ settings) = "-A" ∷ s ∷ words_of settings
  words_of (p1_is s x ∷ settings) = "-P" ∷ s ∷ words_of settings
  words_of (error_is s x ∷ settings) = "-E" ∷ s ∷ words_of settings

  -- The parameter of each setting gets its value, the last one of several.
  abbrev pub set_all : List (Setting p) → SimParam p → SimParam p
  set_all [] params = params
  set_all (time_is s n ∷ settings) params = set_all settings (record params { simulation_time = n })
  set_all (disability_is s x ∷ settings) params =
      set_all settings (record params { disability_prob = x })
  set_all (boost_is s x ∷ settings) params =
      set_all settings (record params { robot_boost_coff = x })
  set_all (p1_is s x ∷ settings) params = set_all settings (record params { p1_dest_prob = x })
  set_all (error_is s x ∷ settings) params =
      set_all settings (record params { error_per_act_prob = x })

  stores_of : List (Setting p) → List (Store p)
  stores_of [] = []
  stores_of (time_is s n ∷ settings) = set_int simulation_time n ∷ stores_of settings
  stores_of (disability_is s x ∷ settings) = set_double disability_prob x ∷ stores_of settings
  stores_of (boost_is s x ∷ settings) = set_double robot_boost_coff x ∷ stores_of settings
  stores_of (p1_is s x ∷ settings) = set_double p1_dest_prob x ∷ stores_of settings
  stores_of (error_is s x ∷ settings) = set_double error_per_act_prob x ∷ stores_of settings

  asked :
      (c : CFlag p) (settings : List (Setting p))
      → AllRead c settings
      → Asks c options (words_of settings) (stores_of settings)
  unfolding stores_of find_flag
  asked c [] read = asks_nothing
  asked c (time_is s n ∷ settings) read =
      asks_int "-T" s _ _ _ n refl read.0 (asked c settings read.1)
  asked c (disability_is s x ∷ settings) read =
      asks_double "-X" s _ _ _ x refl read.0 (asked c settings read.1)
  asked c (boost_is s x ∷ settings) read =
      asks_double "-A" s _ _ _ x refl read.0 (asked c settings read.1)
  asked c (p1_is s x ∷ settings) read =
      asks_double "-P" s _ _ _ x refl read.0 (asked c settings read.1)
  asked c (error_is s x ∷ settings) read =
      asks_double "-E" s _ _ _ x refl read.0 (asked c settings read.1)

  stored_all :
      (settings : List (Setting p)) (params : SimParam p)
      → store_options params (stores_of settings) ≡ set_all settings params
  unfolding stores_of store_options store_option
  stored_all [] params = refl
  stored_all (time_is s n ∷ settings) params = stored_all settings _
  stored_all (disability_is s x ∷ settings) params = stored_all settings _
  stored_all (boost_is s x ∷ settings) params = stored_all settings _
  stored_all (p1_is s x ∷ settings) params = stored_all settings _
  stored_all (error_is s x ∷ settings) params = stored_all settings _

  -- With a flag parser that keeps its law, and a command line of the options T, X, A, P and E,
  -- each any number of times in any order with a text that can be read, `initialize_parameters`
  -- returns without a fault parameters in which each option has set its own field to its last
  -- value and the other fields are as the memory held them; it prints these parameters.
  pub initialize_parameters_lem :
      (c : CFlag p) (params : SimParam p) (program : String) (settings : List (Setting p))
      → CFlagLaws c
      → AllRead c settings
      → initialize_parameters c params (program ∷ words_of settings)
        ≡ ok (set_all settings params, print_simulation_params (set_all settings params))
  unfolding initialize_parameters
  initialize_parameters_lem c params program settings laws read =
      rw
        (
          laws.applied options program (words_of settings) (stores_of settings)
              (asked c settings read),
          stored_all settings params,
        )
        refl
