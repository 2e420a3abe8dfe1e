-- ===== src/Calc/Text.antt =====
-- The messages of src/calculation/calculation.c.
use Prim.Native.String.{String}

abbrev pub overflow_text : String
overflow_text = "Overflow detected for operation\n"

abbrev pub underflow_text : String
underflow_text = "Underflow detected for operation\n"

abbrev pub zero_text : String
zero_text = "Division by zero error\n"
