-- ===== src/Factory/Registry.antt =====
-- What `create` and `get_class_name` find after a number of registrations.
use domq.Prelude.{List, [], ◌∷◌, ◌≡◌, ◌≢◌, All, sym, ok}
use domq.Prelude.Dict
use domq.Prelude.Dict.{get-put_self, get-put_ne}
use domq.Wire.{Bytes}
use domq.Factory.{Factory, Bytes-discrete, create, register, get_class_name, register_all}

module _ {Class : Type 0} (same : Discrete Class) where
  -- The name leads to the class, and the class to the name.
  pub record IsPaired (f : Factory Class) (name : Bytes) (class : Class) : Type 0 where
    pub creates : create same f name ≡ ok class
    pub named : get_class_name same f class ≡ ok name

  -- No two registrations share a name or a class.
  abbrev pub IsDistinct : List (Bytes × Class) → Type 0
  IsDistinct [] = Unit
  IsDistinct ((name, class) ∷ more) =
      All (λ (p : Bytes × Class). (p.0 ≢ name) × (p.1 ≢ class)) more × IsDistinct more

  pub register-IsPaired :
      (f : Factory Class) (name : Bytes) (class : Class)
      → IsPaired (register same name class f) name class
  unfolding register create get_class_name
  register-IsPaired f name class = record {
    creates = rw (get-put_self Bytes-discrete name class f.name2class);
    named = rw (get-put_self same class name f.class2name);
  }

  register-keeps :
      (f : Factory Class) (name n : Bytes) (class c : Class)
      → n ≢ name
      → c ≢ class
      → IsPaired f n c
      → IsPaired (register same name class f) n c
  unfolding register create get_class_name
  register-keeps f name n class c hn hc p = record {
    creates = rw (get-put_ne Bytes-discrete name n class f.name2class hn) p.creates;
    named = rw (get-put_ne same class c name f.class2name hc) p.named;
  }

  register_all-keeps :
      (l : List (Bytes × Class)) (f : Factory Class) (n : Bytes) (c : Class)
      → All (λ (p : Bytes × Class). (p.0 ≢ n) × (p.1 ≢ c)) l
      → IsPaired f n c
      → IsPaired (register_all same l f) n c
  unfolding register_all
  register_all-keeps [] f n c h p = p
  register_all-keeps ((name, class) ∷ l) f n c ((hn, hc), h) p =
      register_all-keeps l (register same name class f) n c h
        (register-keeps f name n class c (λ e. hn (sym e)) (λ e. hc (sym e)) p)

  -- After registrations with distinct names and distinct classes, every registered pair is found
  -- both ways.
  pub register_all-IsPaired :
      (l : List (Bytes × Class)) (f : Factory Class)
      → IsDistinct l
      → All (λ (p : Bytes × Class). IsPaired (register_all same l f) p.0 p.1) l
  unfolding register_all
  register_all-IsPaired [] f h = tt
  register_all-IsPaired ((name, class) ∷ l) f (h, more) = (
    register_all-keeps l (register same name class f) name class h (register-IsPaired f name class),
    register_all-IsPaired l (register same name class f) more,
  )

  -- A second class under one name takes the name over, and the first class keeps it on its side.
  pub register-shadows :
      (f : Factory Class) (name : Bytes) (a b : Class)
      → a ≢ b
      → (create same (register same name b (register same name a f)) name ≡ ok b)
        × (get_class_name same (register same name b (register same name a f)) a ≡ ok name)
  unfolding register create get_class_name
  register-shadows f name a b h = (
    rw (get-put_self Bytes-discrete name b (Dict.put Bytes-discrete name a f.name2class)),
    rw (
      get-put_ne same b a name (Dict.put same a name f.class2name) h,
      get-put_self same a name f.class2name,
    ),
  )
