-- ===== src/Config/Json.antt =====
-- Reading fields of a JSON object (src/config/config_loader.cc, its helpers). A value is what the
-- parser of nlohmann/json gives: a number with no fraction is unsigned if it is not negative.
use linux_server.Base.{
  ℕ, suc, ◌-◌, ◌^◌, Bool, ◌||◌, Option, none, some, ◌⊎◌, inl, inr, ℤ, pos, negsuc, Bytes, ◌++◌,
  codes, nat_to_string, ltb, if◌then◌else◌, ◌==◌, list_eq, nat_eq,
}

-- `other` is null, a number with a fraction, or an array: the loader does not tell them apart.
mutual
  pub data Json : Type 0 where
    other : Json
    boolean : Bool → Json
    unsigned_number : ℕ → Json
    negative_number : ℕ → Json
    text : Bytes → Json
    object : Members → Json

  pub data Members : Type 0 where
    no_members : Members
    member : Bytes → Json → Members → Members

abbrev find : Members → Bytes → Option Json
find no_members key = none
find (member k v rest) key = let found = find rest key in if k == key then some v else found

-- `contains` and `operator[]` of a value that is an object or not.
abbrev pub get : Json → Bytes → Option Json
get (object members) key = find members key
get _ key = none

-- A value, or the message of an error.
abbrev pub Checked : Type 0 → Type 0
Checked A = Bytes ⊎ A

infixl 20 ◌>>=◌
abbrev pub ◌>>=◌ : {A B : Type 0} → Checked A → (A → Checked B) → Checked B
(inl error) >>= f = inl error
(inr a) >>= f = f a

-- The error with the path of the section before it.
abbrev pub with_section : {A : Type 0} → Bytes → Checked A → Checked A
with_section section (inl error) = inl (section ++ error)
with_section section (inr a) = inr a

abbrev read_str : Bytes → Bytes → Option Json → Checked Bytes
read_str key old none = inr old
read_str key old (some (text s)) = inr s
read_str key old (some _) = inl (key ++ codes " must be a string")

abbrev pub get_str : Json → Bytes → Bytes → Checked Bytes
get_str obj key old = read_str key old (get obj key)

abbrev read_bool : Bytes → Bool → Option Json → Checked Bool
read_bool key old none = inr old
read_bool key old (some (boolean b)) = inr b
read_bool key old (some _) = inl (key ++ codes " must be a boolean")

abbrev pub get_bool : Json → Bytes → Bool → Checked Bool
get_bool obj key old = read_bool key old (get obj key)

-- The type of the number has the given maximum.
abbrev pub read_uint : ℕ → Bytes → ℕ → Option Json → Checked ℕ
read_uint max path old none = inr old
read_uint max path old (some (unsigned_number n)) =
    if ltb max n
    then inl (
        path
        ++ (codes " value "
            ++ (nat_to_string n ++ (codes " overflows (max " ++ (nat_to_string max ++ codes ")")))))
    else inr n
read_uint max path old (some _) = inl (path ++ codes " must be an unsigned integer")

abbrev pub get_uint : ℕ → Json → Bytes → Bytes → ℕ → Checked ℕ
get_uint max obj section key old = read_uint max (section ++ key) old (get obj key)

abbrev pub max_uint32 : ℕ
max_uint32 = 2 ^ 32 - 1

abbrev pub max_size : ℕ
max_size = 2 ^ 64 - 1

-- `get<int64_t>` of an unsigned number wraps.
abbrev pub to_int64 : ℕ → ℤ
to_int64 n = if ltb n (2 ^ 63) then pos n else negsuc (2 ^ 64 - 1 - n)

abbrev out_of_range : Bytes → Bytes → Checked ℤ
out_of_range path raw =
    inl (path ++ (codes " value " ++ (raw ++ codes " out of range [-2147483648, 2147483647]")))

-- The type of the number is `int`.
abbrev narrow : Bytes → ℤ → Checked ℤ
narrow path (pos n) =
    if ltb (2 ^ 31 - 1) n then out_of_range path (nat_to_string n) else inr (pos n)
narrow path (negsuc n) =
    if ltb (2 ^ 31 - 1) n
    then out_of_range path (codes "-" ++ nat_to_string (suc n))
    else inr (negsuc n)

abbrev read_int : Bytes → ℤ → Option Json → Checked ℤ
read_int path old none = inr old
read_int path old (some (unsigned_number n)) = narrow path (to_int64 n)
read_int path old (some (negative_number n)) = narrow path (negsuc n)
read_int path old (some _) = inl (path ++ codes " must be an integer")

abbrev pub get_int : Json → Bytes → Bytes → ℤ → Checked ℤ
get_int obj section key old = read_int (section ++ key) old (get obj key)

abbrev read_port : Bytes → ℕ → Option Json → Checked ℕ
read_port path old none = inr old
read_port path old (some (unsigned_number n)) =
    if ltb n 1 || ltb 65535 n
    then inl (path ++ (codes " must be in range 1..65535 (got " ++ (nat_to_string n ++ codes ")")))
    else inr n
read_port path old (some _) = inl (path ++ codes " must be an unsigned integer")

abbrev pub get_port : Json → Bytes → Bytes → ℕ → Checked ℕ
get_port obj section key old = read_port (section ++ key) old (get obj key)

abbrev read_section : {A : Type 0} → Bytes → A → (Json → Checked A) → Option Json → Checked A
read_section name old f none = inr old
read_section name old f (some (object members)) = f (object members)
read_section name old f (some _) = inl (name ++ codes " must be an object")

-- A section that may be missing: its path for errors, its key, and how it is read.
abbrev pub get_section : {A : Type 0} → Json → Bytes → Bytes → A → (Json → Checked A) → Checked A
get_section root path key old f = read_section (path ++ key) old f (get root key)
