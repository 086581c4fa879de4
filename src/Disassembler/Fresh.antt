-- ===== src/Disassembler/Fresh.antt =====
-- What the last instruction left in the context does not show in the next one (Core/Disassembler.h).
pub mod Data
pub mod Arm
