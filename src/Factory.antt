-- ===== src/Factory.antt =====
-- framework/test/test_connectionmgr/msgfactory.py: the table of message classes by name, and of names
-- by class. A message is an object of one of the classes. What protobuf does for a class is not code
-- of this repository, and enters as a `Codec`.
pub mod Registry
use domq.Prelude.{ℕ, Option, none, some, List, [], ◌∷◌, Result, ok, raise, key_error, ℕ_discrete}
use domq.Prelude.Dict
use domq.Wire.{Bytes}

pub record Factory (Class : Type 0) : Type 0 where
  pub name2class : List (Bytes × Class)
  pub class2name : List (Class × Bytes)

pub Bytes-discrete : Discrete Bytes
Bytes-discrete = hlevel ℕ_discrete

-- A dictionary access `d[k]`.
abbrev pub item {ℓ} : {A : Type ℓ} → Option A → Result A
item none = raise key_error
item (some a) = ok a

module _ {Class : Type 0} (same : Discrete Class) where
  -- The class whose object `MsgFactory.create(msgName)` returns.
  unfoldable pub create : Factory Class → Bytes → Result Class
  create f name = item (Dict.get Bytes-discrete name f.name2class)

  unfoldable pub register : Bytes → Class → Factory Class → Factory Class
  register name func f = record {
    name2class = Dict.put Bytes-discrete name func f.name2class;
    class2name = Dict.put same func name f.class2name;
  }

  -- `MsgFactory.getClassName(obj)`, for an object of the class.
  unfoldable pub get_class_name : Factory Class → Class → Result Bytes
  get_class_name f class = item (Dict.get same class f.class2name)

  -- The calls of `register` that a program makes before its first message, in order.
  unfoldable pub register_all : List (Bytes × Class) → Factory Class → Factory Class
  register_all [] f = f
  register_all ((name, func) ∷ more) f = register_all more (register name func f)

-- The table when no class is registered.
abbrev pub no_classes : {Class : Type 0} → Factory Class
no_classes = record { name2class = []; class2name = [] }
