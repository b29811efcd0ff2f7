-- ===== src/Platform/Adt.antt =====
-- The Apple device tree as the drivers see it. AppleDTLib is pongoOS's library: its functions are
-- a parameter, answered from a fixed tree. A node is its address; NULL is `none`.
use apple_silicon_platforms.Prelude.{ℕ, ◌%◌, ◌^◌, Option, List}
use apple_silicon_platforms.Platform.Io.{Io, pure, ◌>>=◌, deref}
use Prim.Native.String.{String}
use mathlib.Core.Option

pub record Adt : Type 0 where
  -- dt_get
  pub get : String → Option ℕ
  -- dt_node_prop, read as a C string: its first string, up to the NUL
  pub text : ℕ → String → Option String
  -- dt_node_prop, read as an array of UINT32
  pub words : ℕ → String → Option (List ℕ)
  -- dt_node_u32; a missing property is a read through NULL
  pub u32 : ℕ → String → ℕ → Option ℕ
  -- the address of dt_node_reg; on an error the output argument is not written
  pub reg : ℕ → ℕ → Option ℕ

-- dt_node_u32 (node, prop, idx) of a node that may be NULL
abbrev pub node_u32 : Adt → Option ℕ → String → ℕ → Io ℕ
node_u32 adt node prop i = do n ← deref node; v ← deref (adt.u32 n prop i); pure (v % 2 ^ 32)

-- dt_node_prop of a node that may be NULL, used as a string
abbrev pub node_text : Adt → Option ℕ → String → Io String
node_text adt node prop = do n ← deref node; deref (adt.text n prop)

-- dt_node_reg (node, idx, &addr, NULL): the new value of `addr`, given its old one
abbrev pub node_reg : Adt → Option ℕ → ℕ → ℕ → Io ℕ
node_reg adt node i old = do n ← deref node; pure (Option.get_or (adt.reg n i) old % 2 ^ 64)
