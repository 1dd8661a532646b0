-- ===== src/Http/Security/Keys.antt =====
-- internal/httpapi/security.go: whom the merchant keys identify.
use payment_ledger_platform.Base.{
  ◌≡◌, ◌≢◌, refl, sym, ◌∙◌, ◌||◌, inl, inr, String, ◌==◌, eq_iff, Option, none, some, List, [], ◌∷◌,
  All, Bool-cases, if◌then◌else◌, arith,
}
use payment_ledger_platform.Base.Dict.{Dict, lookup, insert, All-insert, All-lookup}
use payment_ledger_platform.Text.{trim_space, split, cut}
use payment_ledger_platform.Http.Security.{
  add_key, add_keys, new_merchant_authenticator, match_key, authenticate,
}

-- The loop finds what the map holds.
match_key-lookup : (key : String) (es : Dict String) → match_key key es ≡ lookup key es
unfolding match_key lookup
match_key-lookup key [] = refl
match_key-lookup key (e ∷ es) = ground (arith, match_key-lookup key es)

-- Neither the key nor the merchant is empty.
abbrev pub IsNamed : String × String → Type 0
IsNamed e = (e.0 ≢ "") × (e.1 ≢ "")

insert-IsNamed :
    (key merchant : String) (keys : Dict String)
    → All IsNamed keys
    → All IsNamed (if key == "" || merchant == "" then keys else insert key merchant keys)
insert-IsNamed key merchant keys h = elim (Bool-cases (key == "" || merchant == "")) [
  | inl blank ↦ rw (blank) h
  | inr named ↦ rw (named) (
      All-insert IsNamed key merchant keys h
        (ground (arith, named, eq_iff key ""), ground (arith, named, eq_iff merchant "")))
]

add_found-IsNamed :
    (found : Option (String × String)) (keys : Dict String)
    → All IsNamed keys
    → All IsNamed (elim found [
      | none ↦ keys
      | some (key, merchant) ↦
          if key == "" || merchant == "" then keys else insert key merchant keys
    ])
add_found-IsNamed none keys h = h
add_found-IsNamed (some (key, merchant)) keys h = insert-IsNamed key merchant keys h

add_key-IsNamed :
    (item : String) (keys : Dict String) → All IsNamed keys → All IsNamed (add_key item keys)
unfolding add_key
add_key-IsNamed item keys h = add_found-IsNamed (cut ":" (trim_space item)) keys h

add_keys-IsNamed :
    (items : List String) (keys : Dict String)
    → All IsNamed keys
    → All IsNamed (add_keys items keys)
unfolding add_keys
add_keys-IsNamed [] keys h = h
add_keys-IsNamed (item ∷ items) keys h =
    add_keys-IsNamed items (add_key item keys) (add_key-IsNamed item keys h)

pub authenticates :
    (keys : Dict String) (key : String) (visit : Dict String → Dict String)
    → ((m : Dict String) → lookup key (visit m) ≡ lookup key m)
    → keys ≢ []
    → authenticate visit (record { keys = keys }) key ≡ lookup key keys
unfolding authenticate
authenticates [] key visit visits configured = elim (configured refl) [ ]
authenticates (e ∷ es) key visit visits configured =
    match_key-lookup key (visit (e ∷ es)) ∙ visits (e ∷ es)

-- No key of an authenticator is empty, and no merchant.
pub keys-IsNamed : (serialized : String) → All IsNamed (new_merchant_authenticator serialized).keys
unfolding new_merchant_authenticator
keys-IsNamed serialized = add_keys-IsNamed (split "," serialized) [] tt

-- When the configured text yields some key, and a visit finds under the key what the map holds,
-- `Authenticate` accepts the key as a merchant only if the configuration gives the key to that
-- merchant, and then neither is empty.
pub authenticate-lookup :
    (serialized key merchant : String) (visit : Dict String → Dict String)
    → ((m : Dict String) → lookup key (visit m) ≡ lookup key m)
    → (new_merchant_authenticator serialized).keys ≢ []
    → authenticate visit (new_merchant_authenticator serialized) key ≡ some merchant
    → (lookup key (new_merchant_authenticator serialized).keys ≡ some merchant)
      × (key ≢ "")
      × (merchant ≢ "")
authenticate-lookup serialized key merchant visit visits configured h =
    let authenticator = new_merchant_authenticator serialized in
    let found = sym (authenticates authenticator.keys key visit visits configured) ∙ h in
    let (filled, owned) =
      All-lookup IsNamed key merchant authenticator.keys (keys-IsNamed serialized) found in
    (found, filled, owned)
