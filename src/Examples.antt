-- ===== src/Examples.antt =====
-- Tests of the definitions and the theorems at concrete inputs.
mod AffineExamples
mod IrExamples
mod ContextExamples
mod PipelineExamples
mod RiscvExamples
mod InterpretersExamples
mod UsesExamples
mod LexerExamples
mod IrdlExamples
mod RegionExamples
mod ParserExamples
mod AffineParserExamples
mod PassesExamples
mod InterpreterExamples
mod RewritingExamples
