-- ===== src/IoDevice/TableLaws.antt =====
-- What a look-up in the device table finds after a registration or a write.
use veil_os.Base.{
  ℕ, Bool, true, false, not, ◌&&◌, Option, none, some, List, [], ◌∷◌, ◌≡◌, refl, ◌==◌,
  if◌then◌else◌, arith, ◌∙◌,
}
use veil_os.IoDevice.Types.{IoDevice, Table}
use veil_os.IoDevice.Table.{
  find_child, get_internal_device, put_child, put_device, has_child, has_link, add_child, add_link,
  add_start_link, reset_device, add_io_device,
}

abbrev pub is_some : Option IoDevice → Bool
is_some none = false
is_some (some d) = true

-- A device that is written back keeps its code.
find_child-put_child :
    (ds : List IoDevice) (code j : ℕ) (device : IoDevice)
    → device.code ≡ code
    → find_child (put_child ds code device) j ≡ (
        if code == j
        then (elim (find_child ds code) [ none ↦ none | some d ↦ some device ])
        else find_child ds j)
unfolding find_child put_child
find_child-put_child [] code j device e = ground arith
find_child-put_child (d ∷ ds) code j device e =
    ground (arith, find_child-put_child ds code j device e)

pub get-put :
    (t : Table) (category code c k : ℕ) (device : IoDevice)
    → device.code ≡ code
    → get_internal_device (put_device t category code device) c k ≡ (
        if (category == c) && (code == k)
        then (elim (get_internal_device t category code) [ none ↦ none | some d ↦ some device ])
        else get_internal_device t c k)
unfolding get_internal_device put_device
get-put [] category code c k device e = ground arith
get-put (l ∷ ls) category code c k device e =
    ground
      (arith, get-put ls category code c k device e, find_child-put_child l.child code k device e)

-- A link without devices changes no look-up.
get-add_start_link :
    (t : Table) (category c k : ℕ)
    → get_internal_device (add_start_link t category) c k ≡ get_internal_device t c k
unfolding get_internal_device add_start_link
get-add_start_link [] category c k = ground arith
get-add_start_link (l ∷ ls) category c k = refl

get-none_of_has_link :
    (t : Table) (c k : ℕ) → has_link t c ≡ false → get_internal_device t c k ≡ none
unfolding get_internal_device has_link
get-none_of_has_link [] c k h = refl
get-none_of_has_link (l ∷ ls) c k h = ground (arith, get-none_of_has_link ls c k)

get-add_link :
    (t : Table) (category c k : ℕ)
    → get_internal_device (add_link t category) c k ≡ get_internal_device t c k
unfolding get_internal_device add_link has_link
get-add_link [] category c k = ground arith
get-add_link (l ∷ ls) category c k = ground (arith, get-none_of_has_link ls c k)

has_link-add_link : (t : Table) (category : ℕ) → has_link (add_link t category) category ≡ true
unfolding has_link add_link
has_link-add_link [] category = ground arith
has_link-add_link (l ∷ ls) category = ground arith

has_child-find : (ds : List IoDevice) (code : ℕ) → has_child ds code ≡ is_some (find_child ds code)
unfolding has_child find_child
has_child-find [] code = refl
has_child-find (d ∷ ds) code = ground (arith, has_child-find ds code)

get-add_child :
    (t : Table) (device : IoDevice) (c k : ℕ)
    → has_link t device.category ≡ true
    → get_internal_device (add_child t device).0 c k ≡ (
        if ((device.category == c) && (device.code == k))
          && not (is_some (get_internal_device t c k))
        then some device
        else get_internal_device t c k)
unfolding get_internal_device add_child has_link find_child
get-add_child [] device c k h = absurd (ground arith)
get-add_child (l ∷ ls) device c k h =
    ground (arith, get-add_child ls device c k, has_child-find l.child device.code)

done-add_child :
    (t : Table) (device : IoDevice)
    → has_link t device.category ≡ true
    → (add_child t device).1 ≡ not (is_some (get_internal_device t device.category device.code))
unfolding get_internal_device add_child has_link
done-add_child [] device h = absurd (ground arith)
done-add_child (l ∷ ls) device h =
    ground (arith, done-add_child ls device, has_child-find l.child device.code)

-- `AddIODevice` registers a device exactly when its category and code are free. The new device is
-- then found there with no tokens and no permissions taken, and every other look-up, and every
-- look-up after a refusal, finds what it found before.
pub get-add_io_device :
    (t : Table) (device : IoDevice) (c k : ℕ)
    → ((add_io_device t device).1
        ≡ not (is_some (get_internal_device t device.category device.code)))
      × (get_internal_device (add_io_device t device).0 c k ≡ (
          if ((device.category == c) && (device.code == k))
            && not (is_some (get_internal_device t c k))
          then some (reset_device device)
          else get_internal_device t c k))
unfolding add_io_device reset_device
get-add_io_device t device c k =
    let linked = has_link-add_link (add_start_link t device.category) device.category in
    let same = λ (j : ℕ) (i : ℕ).
      get-add_link (add_start_link t device.category) device.category j i
      ∙ get-add_start_link t device.category j i in
    ground (
      arith,
      done-add_child (add_link (add_start_link t device.category) device.category)
          (reset_device device) linked,
      get-add_child (add_link (add_start_link t device.category) device.category)
          (reset_device device) c k linked,
      same c k,
      same device.category device.code,
    )

find_child-code :
    (ds : List IoDevice) (code : ℕ) {d : IoDevice} → find_child ds code ≡ some d → d.code ≡ code
unfolding find_child
find_child-code [] code e = absurd (ground arith)
find_child-code (c ∷ ds) code {d} e = ground (arith, find_child-code ds code {d = d})

-- A device is found under its own code.
pub code-get :
    (t : Table) (category code : ℕ) {d : IoDevice}
    → get_internal_device t category code ≡ some d
    → d.code ≡ code
unfolding get_internal_device
code-get [] category code e = absurd (ground arith)
code-get (l ∷ ls) category code {d} e =
    ground (arith, find_child-code l.child code {d = d}, code-get ls category code {d = d})
