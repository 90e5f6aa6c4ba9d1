-- ===== src/Bind/Tests.antt =====
-- The theorems on binds at concrete binds.
use hyprscheme.Base.{ℕ, ◌≡◌, refl, true, not, none, [], ◌∷◌, Text, codes, text_eq, keep, arith}
use hyprscheme.Scm.{nil, pair, string, elements}
use hyprscheme.Bind.{
  Bind, Binds, Wanted, done, scheme_bind, scheme_unbind_rec, tagged, bind_tag, is_ours,
  shutdown_binds, device_names,
}
use hyprscheme.Bind.Ownership.{scheme_bind-scheme_unbind_rec, shutdown_binds-keep}

abbrev lua_bind : Bind
lua_bind = record {
  id = 0;
  record_of = 0;
  keys = codes "x" ∷ [];
  flags = 0;
  display_key = codes "SUPER + x";
  argument = codes "lua";
  description = [];
  submap = [];
  submap_reset = [];
  devices = [];
  enabled = true;
}

abbrev scheme_one : Bind
scheme_one = record lua_bind { id = 1; argument = codes "scheme:42" }

abbrev two_binds : Binds
two_binds = record { registry = lua_bind ∷ scheme_one ∷ []; next = 2; error = [] }

abbrev one_digit : ℕ → Text
one_digit n = n ∷ []

abbrev wanted : Wanted
wanted = record {
  tokens = pair (string (codes "SUPER")) (pair (string (codes "x")) nil);
  flags = 0;
  description = [];
  devices = nil;
  submap = [];
  submap_reset = [];
}

bind_accepted : (scheme_bind one_digit (λ b. none) true 7 wanted two_binds).1 ≡ done
unfolding scheme_bind device_names elements
bind_accepted = refl

seven_free : tagged (bind_tag one_digit 7) two_binds.registry ≡ none
unfolding tagged bind_tag text_eq
seven_free = refl

scheme_bind-scheme_unbind_rec_example :
    let after =
      scheme_unbind_rec one_digit true 7
        (scheme_bind one_digit (λ b. none) true 7 wanted two_binds).0 in
    (after.0.registry ≡ two_binds.registry) × (after.1 ≡ done)
scheme_bind-scheme_unbind_rec_example =
    scheme_bind-scheme_unbind_rec one_digit (λ b. none) 7 wanted two_binds bind_accepted seven_free
      (omega arith, (omega arith, tt))

shutdown_binds-keep_example :
    (shutdown_binds two_binds).registry ≡ keep (λ b. not (is_ours b)) two_binds.registry
shutdown_binds-keep_example = shutdown_binds-keep two_binds (refl, (refl, tt))
