-- ===== src/IoDevice/Table.antt =====
-- `getInternalDevice`, `createLink` and `AddIODevice` of kernel/interface/iodevice.c.
use veil_os.Base.{ℕ, Bool, true, false, Option, none, some, List, [], ◌∷◌, ◌==◌, if◌then◌else◌}
use veil_os.IoDevice.Types.{IoDevice, IoLink, Table}

-- The inner loop of `getInternalDevice`.
unfoldable pub find_child : List IoDevice → ℕ → Option IoDevice
find_child [] code = none
find_child (d ∷ ds) code = if d.code == code then some d else find_child ds code

-- The first link of the category decides: a code that it lacks is not looked for further on.
unfoldable pub get_internal_device : Table → ℕ → ℕ → Option IoDevice
unfolding find_child
get_internal_device [] category code = none
get_internal_device (l ∷ ls) category code =
    if l.category == category then find_child l.child code else get_internal_device ls category code

-- A write through the pointer that `getInternalDevice` returned.
unfoldable pub put_child : List IoDevice → ℕ → IoDevice → List IoDevice
put_child [] code device = []
put_child (d ∷ ds) code device =
    if d.code == code then device ∷ ds else d ∷ put_child ds code device

unfoldable pub put_device : Table → ℕ → ℕ → IoDevice → Table
unfolding put_child
put_device [] category code device = []
put_device (l ∷ ls) category code device =
    if l.category == category
    then record l { child = put_child l.child code device } ∷ ls
    else l ∷ put_device ls category code device

unfoldable pub create_link : ℕ → IoLink
create_link category = record { category = category; child = [] }

unfoldable pub has_link : Table → ℕ → Bool
has_link [] category = false
has_link (l ∷ ls) category = if l.category == category then true else has_link ls category

-- A new category goes in second place: `link->next = start_link->next; start_link->next = link`.
unfoldable pub insert_link : Table → IoLink → Table
insert_link [] link = link ∷ []
insert_link (l ∷ ls) link = l ∷ link ∷ ls

unfoldable pub has_child : List IoDevice → ℕ → Bool
has_child [] code = false
has_child (d ∷ ds) code = if d.code == code then true else has_child ds code

-- The end of `AddIODevice`, at the link of the device's category.
unfoldable pub add_child : Table → IoDevice → Table × Bool
unfolding has_child
add_child [] device = ([], false)
add_child (l ∷ ls) device =
    if l.category == device.category
    then (if has_child l.child device.code
        then (l ∷ ls, false)
        else (record l { child = device ∷ l.child } ∷ ls, true))
    else let (ls', done) = add_child ls device in (l ∷ ls', done)

unfoldable pub reset_device : IoDevice → IoDevice
reset_device device = record device { tokens = []; permissions_taken = 0 }

unfoldable pub add_start_link : Table → ℕ → Table
unfolding create_link
add_start_link [] category = create_link category ∷ []
add_start_link (l ∷ ls) category = l ∷ ls

unfoldable pub add_link : Table → ℕ → Table
unfolding has_link insert_link create_link
add_link t category = if has_link t category then t else insert_link t (create_link category)

unfoldable pub add_io_device : Table → IoDevice → Table × Bool
add_io_device t device =
    add_child (add_link (add_start_link t device.category) device.category) (reset_device device)
