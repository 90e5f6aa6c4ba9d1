-- ===== src/Config/Values/Sessions.antt =====
-- What reaches a configuration value of cpp/Config.cpp.
use hyprscheme.Base.{ℕ, ◌≡◌, refl, ap, ◌∙◌, true, Option, none, some, List, [], ◌∷◌, Text}
use hyprscheme.Base.Int.{ℤ, negsuc}
use hyprscheme.Config.Values.{
  Lua, Values, Scratch, StackCall, config_value_by_key, on_stack, config_begin, config_push,
  set_value, unknown_key, config_set,
}

module _ {S : Type 0} (lua : Lua S) (values : Values S) where
  abbrev pub pushes : List StackCall → Scratch S → Scratch S
  pushes [] s = s
  pushes (c ∷ cs) s = pushes cs (config_push lua values true c s).0

  abbrev pub stack_after : List StackCall → S → S
  stack_after [] st = st
  stack_after (c ∷ cs) st = stack_after cs (on_stack lua values c st)

  -- A begin, pushes, and the key.
  abbrev pub session : List StackCall → Option Text → Scratch S → Scratch S × ℤ
  session cs key s = config_set lua values true key (pushes cs (config_begin lua values true s).0)

  pushes-stack_after :
      (cs : List StackCall) (s : Scratch S)
      → pushes cs s ≡ record s { stack = stack_after cs s.stack }
  unfolding config_push
  pushes-stack_after [] s = refl
  pushes-stack_after (c ∷ cs) s =
      pushes-stack_after cs (record s { stack = on_stack lua values c s.stack })

  -- What a session comes to: nothing but the key and the calls decides it.
  abbrev pub session_result :
      List StackCall → S → Option ℕ → Option Text → Scratch S → Scratch S × ℤ
  session_result cs empty none key s =
      (record s { stack = stack_after cs empty; error = unknown_key lua values key }, negsuc 0)
  session_result cs empty (some v) key s =
      set_value lua values v (values.parse v (stack_after cs empty))
        (record s { stack = stack_after cs empty })

  -- A value is set from the pushes of its own session alone: whatever an earlier session, one that was refused
  -- among them, left on the scratch stack, the session answers and sets what it does on an empty stack.
  -- Clearing a stack, `lua_settop(L, 0)`, gives the empty one.
  pub session-session_result :
      (empty : S) (cs : List StackCall) (key : Option Text) (s : Scratch S)
      → ((st : S) → lua.set_top_0 st ≡ empty)
      → session cs key s ≡ session_result cs empty (config_value_by_key values.value_at key) key s
  unfolding config_begin config_set
  session-session_result empty cs key s clears =
      ap (config_set lua values true key) (
        pushes-stack_after cs (record s { stack = lua.set_top_0 s.stack })
        ∙ ap (λ st. record s { stack = stack_after cs st }) (clears s.stack))
      ∙ by_key (config_value_by_key values.value_at key)
    where
      by_key :
          (o : Option ℕ)
          → (elim o as (λ x. Scratch S × ℤ) [
            | none ↦ (
              record s { stack = stack_after cs empty; error = unknown_key lua values key },
              negsuc 0,
            )
            | some v ↦
                set_value lua values v
                  (values.parse v (stack_after cs empty))
                  (record s { stack = stack_after cs empty })
          ])
            ≡ session_result cs empty o key s
      by_key none = refl
      by_key (some v) = refl
