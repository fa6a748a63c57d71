-- ===== src/Store/Ukg/Rows/Laws.antt =====
-- What the upserts keep and what the lookups find behind them.
use pre_call.Prelude.{
  true-false, ◌≡◌, refl, sym, ◌∙◌, Text, true, false, List, [], ◌∷◌, ◌++◌, some, if◌then◌else◌,
  bytes_eq, bytes_eq_refl, bytes_eq→eq, Bool-cases, inl, inr, arith,
}
use pre_call.Store.Ukg.Tables.{ConfigRow, Ukg}
use pre_call.Store.Ukg.Rows.{delete_config, config_value, set_config, get_config}

bytes_eq_same : (a b c : Text) → bytes_eq a c ≡ true → bytes_eq b c ≡ true → bytes_eq a b ≡ true
bytes_eq_same a b c h k = rw (bytes_eq→eq a c h, bytes_eq→eq b c k) (bytes_eq_refl c)

config_value-append :
    (key : Text) (rows : List ConfigRow) (r : ConfigRow)
    → config_value key (delete_config r.key rows ++ (r ∷ []))
      ≡ (if bytes_eq r.key key then some r.value else config_value key rows)
unfolding config_value delete_config
config_value-append key [] r = refl
config_value-append key (x ∷ xs) r = elim (Bool-cases (bytes_eq x.key r.key)) [
  | inl e ↦ rw (e, config_value-append key xs r) (same e)
  | inr e ↦ rw e (ground (arith, config_value-append key xs r, differ e))
]
  where
    same :
        bytes_eq x.key r.key ≡ true
        → (if bytes_eq r.key key then some r.value else config_value key xs) ≡ (
            if bytes_eq r.key key
            then some r.value
            else (if bytes_eq x.key key then some x.value else config_value key xs))
    same e = rw (bytes_eq→eq x.key r.key e) (ground arith)

    differ : bytes_eq x.key r.key ≡ false → bytes_eq x.key key ≡ true → bytes_eq r.key key ≡ false
    differ e h = elim (Bool-cases (bytes_eq r.key key)) [
      | inl k ↦ absurd (true-false (sym (bytes_eq_same x.key r.key key h k) ∙ e))
      | inr k ↦ k
    ]

-- `get_config` reads what the last `set_config` of the key wrote, and no other key changes.
pub get_config-set_config :
    (key other value : Text) (db : Ukg)
    → get_config other (set_config key value db)
      ≡ (if bytes_eq key other then some value else get_config other db)
unfolding get_config set_config
get_config-set_config key other value db =
    config_value-append other db.config (record { key = key; value = value })
