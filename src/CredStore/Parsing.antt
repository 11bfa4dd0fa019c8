-- ===== src/CredStore/Parsing.antt =====
-- What the parser of a credential payload accepts, and what the store finds after a swap.
use s3proxy4gcs.Base.{
  ◌≡◌, ◌≢◌, ◌↔◌, refl, false, some, Option, [], ◌∷◌, Text, Dict, lookup, HasDistinctKeys, insert,
  copy_into, lookup-copy_into, text_eq_iff, trim_space, arith,
}
use s3proxy4gcs.Base.Result.{ok}
use s3proxy4gcs.CredStore.{Store, replace, find, is_blank, check_entries, parse}

-- Neither the key nor the secret of an entry is blank.
abbrev pub AllFilled : Dict Text → Type 0
AllFilled [] = Unit
AllFilled ((k, v) ∷ m) = (is_blank k ≡ false) × (is_blank v ≡ false) × AllFilled m

check_entries-AllFilled : (m : Dict Text) → (check_entries m ≡ ok tt) ↔ AllFilled m
unfolding check_entries
check_entries-AllFilled [] = (λ _. tt, λ _. refl)
check_entries-AllFilled ((k, v) ∷ m) = ground (arith, check_entries-AllFilled m)

-- The parser accepts a payload exactly when something but white space is in it, JSON reads what the
-- white space around it leaves as a map that is not empty, and no key and no secret of the map is
-- white space alone; the result is that map. White space is that of Unicode, in UTF-8.
pub parse_iff :
    (unmarshal : Text → Option (Dict Text)) (payload : Text) (m : Dict Text)
    → (parse unmarshal payload ≡ ok m) ↔ (
        (trim_space payload ≢ [])
        × (unmarshal (trim_space payload) ≡ some m)
        × (m ≢ [])
        × AllFilled m)
unfolding parse
parse_iff unmarshal payload m =
    ground (arith, text_eq_iff (trim_space payload) [], check_entries-AllFilled m)

-- After a swap the store finds the entries of the new map and no other.
pub find-replace :
    (s : Store) (m : Dict Text) (ak : Text)
    → HasDistinctKeys m
    → find (replace s m) ak ≡ lookup ak m
unfolding find replace lookup
find-replace s m ak h = ground (arith, lookup-copy_into ak m [] h)

pub AllFilled-insert :
    (k v : Text) (m : Dict Text)
    → is_blank k ≡ false
    → is_blank v ≡ false
    → AllFilled m
    → AllFilled (insert k v m)
unfolding insert
AllFilled-insert k v [] hk hv h = (hk, hv, tt)
AllFilled-insert k v ((j, w) ∷ m) hk hv (fk, fv, h) = ground (arith, AllFilled-insert k v m hk hv h)

pub AllFilled-copy_into :
    (m cp : Dict Text) → AllFilled m → AllFilled cp → AllFilled (copy_into m cp)
unfolding copy_into
AllFilled-copy_into [] cp h k = k
AllFilled-copy_into ((j, v) ∷ m) cp (fk, fv, h) k =
    AllFilled-copy_into m (insert j v cp) h (AllFilled-insert j v cp fk fv k)

pub insert-ne-nil : (k v : Text) (m : Dict Text) → insert k v m ≢ []
unfolding insert
insert-ne-nil k v [] = ground arith
insert-ne-nil k v ((j, w) ∷ m) = ground arith

pub copy_into-ne-nil : (m cp : Dict Text) → cp ≢ [] → copy_into m cp ≢ []
unfolding copy_into
copy_into-ne-nil [] cp h = h
copy_into-ne-nil ((j, v) ∷ m) cp h = copy_into-ne-nil m (insert j v cp) (insert-ne-nil j v cp)
