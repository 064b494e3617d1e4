-- ===== src/Endpoint/State.antt =====
-- The state of an endpoint of lib/cmux/cmux_client.c and lib/cmux/cmux_server.c: the two arrays have
-- an entry for each DLCI below the maximum, and for no other.
use mathlib.Core.Option.{some-injective, map-eq-some_iff}
use cmux.Base.{ℕ, zero, suc, ◌≤◌, ◌<◌, ◌≡◌, refl, sym, ap, ◌∙◌, arith, ltb, Bool-cases, inl, inr}
use cmux.Base.{
  le→not_ltb, Option, none, some, List, [], ◌∷◌, length, replicate, length-replicate, read, write,
  ◌>>=◌,
}
use cmux.Base.Memory.{>>=-eq-some, write_within, write_outside}
use cmux.Endpoint.{Options, TerminalOptions, Endpoint, no_terminal_options, no_frame, init}
use cmux.Endpoint.{update_terminal_options}

pub record IsWellFormed (endpoint : Endpoint) : Type 0 where
  pub positive : 1 ≤ endpoint.options.maximum_dlci
  pub options_sized : length endpoint.terminal_options ≡ endpoint.options.maximum_dlci
  pub statuses_sized : length endpoint.terminal_statuses ≡ endpoint.options.maximum_dlci

pub write-length {ℓ} :
    {A : Type ℓ} (m : List A) (i : ℕ) (v : A) (m' : List A)
    → write m i v ≡ some m'
    → length m' ≡ length m
write-length [] i v m' e = cc
write-length (x ∷ m) zero v m' e = ap length (sym (some-injective _ _ e))
write-length (x ∷ m) (suc i) v m' e =
    let (t, w, q) = (map-eq-some_iff (λ t. x ∷ t) (write m i v)).0 e in
    ap length (sym q) ∙ ap suc (write-length m i v t w)

read_replicate {ℓ} : {A : Type ℓ} (n i : ℕ) (v : A) → i < n → read (replicate n v) i ≡ some v
read_replicate zero i v h = absurd (omega arith)
read_replicate (suc n) zero v h = refl
read_replicate (suc n) (suc i) v h = read_replicate n i v (omega arith)

-- With a maximum of 0, `cmux_client_init` and `cmux_server_init` return NULL. With any other they
-- return an endpoint with these options, in which no callback of a terminal is registered and no
-- frame has been sent, for every DLCI below the maximum.
pub init_cases :
    (options : Options)
    → (options.maximum_dlci ≡ 0 → init options ≡ none)
      × (1 ≤ options.maximum_dlci
          → (endpoint : Endpoint) × (init options ≡ some endpoint)
            × IsWellFormed endpoint
            × (endpoint.options ≡ options)
            × ((dlci : ℕ)
                → dlci < options.maximum_dlci
                → (read endpoint.terminal_options dlci ≡ some no_terminal_options)
                  × (read endpoint.terminal_statuses dlci ≡ some no_frame)))
unfolding init
init_cases options =
    let n = options.maximum_dlci in
    (
      λ e. rw e,
      λ h. (
        record {
          options = options;
          terminal_options = replicate n no_terminal_options;
          terminal_statuses = replicate n no_frame;
        },
        rw (le→not_ltb 1 n h),
        record {
          positive = h;
          options_sized = length-replicate n no_terminal_options;
          statuses_sized = length-replicate n no_frame;
        },
        refl,
        λ dlci l. (read_replicate n dlci no_terminal_options l, read_replicate n dlci no_frame l),
      ),
    )

-- The callbacks that `update_terminal_options` registers.
abbrev pub given_options : Option TerminalOptions → TerminalOptions
given_options none = no_terminal_options
given_options (some given) = given

update_terminal_options_eq :
    (endpoint : Endpoint) (dlci : ℕ) (given : Option TerminalOptions)
    → update_terminal_options endpoint dlci given ≡ (
        write endpoint.terminal_options dlci (given_options given) >>= λ updated.
        some (record endpoint { terminal_options = updated }))
unfolding update_terminal_options
update_terminal_options_eq endpoint dlci none = refl
update_terminal_options_eq endpoint dlci (some given) = refl

pub update_within :
    (endpoint : Endpoint) (dlci : ℕ) (given : Option TerminalOptions)
    → IsWellFormed endpoint
    → dlci < endpoint.options.maximum_dlci
    → (updated : List TerminalOptions) × (update_terminal_options endpoint dlci given
        ≡ some (record endpoint { terminal_options = updated }))
      × (read updated dlci ≡ some (given_options given))
      × IsWellFormed (record endpoint { terminal_options = updated })
update_within endpoint dlci given w h =
    let (updated, e, l, r) =
      write_within endpoint.terminal_options dlci (given_options given)
        (omega (arith, w.options_sized)) in
    (
      updated,
      rw (update_terminal_options_eq endpoint dlci given, e),
      r,
      record {
        positive = w.positive;
        options_sized = l ∙ w.options_sized;
        statuses_sized = w.statuses_sized;
      },
    )

pub update_outside :
    (endpoint : Endpoint) (dlci : ℕ) (given : Option TerminalOptions)
    → IsWellFormed endpoint
    → endpoint.options.maximum_dlci ≤ dlci
    → update_terminal_options endpoint dlci given ≡ none
update_outside endpoint dlci given w h = rw (
  update_terminal_options_eq endpoint dlci given,
  write_outside endpoint.terminal_options dlci (given_options given)
      (omega (arith, w.options_sized)),
)

pub update-IsWellFormed :
    (endpoint : Endpoint) (dlci : ℕ) (given : Option TerminalOptions) (after : Endpoint)
    → IsWellFormed endpoint
    → update_terminal_options endpoint dlci given ≡ some after
    → IsWellFormed after × (after.options ≡ endpoint.options)
update-IsWellFormed endpoint dlci given after w e =
    let (updated, u, done) =
      >>=-eq-some (write endpoint.terminal_options dlci (given_options given)) _
        (rw (update_terminal_options_eq endpoint dlci given) at e) in
    let q : record endpoint { terminal_options = updated } ≡ after = some-injective _ _ done in
    rw (← q) (
      record {
        positive = w.positive;
        options_sized =
            write-length endpoint.terminal_options dlci (given_options given) updated u
            ∙ w.options_sized;
        statuses_sized = w.statuses_sized;
      },
      refl,
    )

pub init-IsWellFormed :
    (options : Options) (endpoint : Endpoint)
    → init options ≡ some endpoint
    → IsWellFormed endpoint × (endpoint.options ≡ options)
init-IsWellFormed options endpoint e = elim (Bool-cases (ltb options.maximum_dlci 1)) [
  | inl small ↦
      let z : options.maximum_dlci ≡ 0 = ground (arith, small) in
      absurd (cc ((init_cases options).0 z, e))
  | inr big ↦
      let (made, m, w, same, _) = (init_cases options).1 (ground (arith, big)) in
      let q : made ≡ endpoint = some-injective _ _ (sym m ∙ e) in rw (← q) (w, same)
]
